-- ===== src/Helpers/Hmac.antt =====
-- helpers/hmac.go: the keyed hash by which the operator tells whether a destination Secret still
-- holds what was synced.
pub mod Drift
mod Key
mod Examples
use vault_secrets_operator.Base.{
  ℕ, String, Bool, true, false, not, Option, none, some, List, [], ◌∷◌, ◌==◌, text_key, bytes_key,
  nat_eq, length, if◌then◌else◌,
}
use vault_secrets_operator.Base.Map
use vault_secrets_operator.Base.Map.{Map}
use vault_secrets_operator.Base.Result.{Result, ok, err, ◌>>=◌}
use vault_secrets_operator.Api.Names.{ObjectKey}
use vault_secrets_operator.Api.Secret.{Secret, Bytes}
use vault_secrets_operator.Api.Syncable.{
  Object, vault_dynamic_secret, vault_static_secret, vault_pki_secret, hcp_vault_secrets_app,
  meta_of,
}
use vault_secrets_operator.Kube.Client.{Client}
use vault_secrets_operator.Common.Errors.{
  Error, api, unsupported_type, missing_hmac_key, invalid_key_length, joined, reading_hmac_key,
}
use vault_secrets_operator.Common.Refs.{validate_object_key}
use vault_secrets_operator.Helpers.Exists.{get_secret_exists_for_obj}

unfoldable pub get_secret_mac : Object → Result Error String
get_secret_mac (vault_dynamic_secret m s) = ok s.secret_mac
get_secret_mac (vault_static_secret m s) = ok s.secret_mac
get_secret_mac (vault_pki_secret m s) = ok s.secret_mac
get_secret_mac (hcp_vault_secrets_app m s) = ok s.secret_mac
get_secret_mac _ = err unsupported_type

-- HMACKeyName
abbrev pub hmac_key_name : String
hmac_key_name = "key"

unfoldable pub validate_key_length : Bytes → Option Error
validate_key_length key =
    if nat_eq (length key) 16 then none else some (invalid_key_length (length key))

-- A key that is missing is of length 0, and both errors are returned.
unfoldable pub validate_hmac_key_secret : Secret → Result Error Bytes
validate_hmac_key_secret s = elim (Map.get hmac_key_name s.contents) [
  | none ↦ err (joined missing_hmac_key (invalid_key_length 0))
  | some key ↦ elim (validate_key_length key) [ none ↦ ok key | some e ↦ err e ]
]

-- createHMACKeySecret: what is created for a key.
unfoldable pub hmac_key_secret : ObjectKey → Bytes → Secret
hmac_key_secret obj_key key = record {
  key = obj_key;
  labels =
      ("app.kubernetes.io/name", "vault-secrets-operator")
      ∷ ("app.kubernetes.io/managed-by", "hashicorp-vso")
      ∷ ("app.kubernetes.io/component", "client-cache-storage-verification")
      ∷ [];
  annotations = [];
  owner_references = [];
  resource_version = "";
  generation = 0;
  type = "";
  immutable = true;
  contents = (hmac_key_name, key) ∷ [];
}

-- HMACValidator: the MAC of a message, and whether a message has a MAC, with the one it has.
pub record HmacValidator (Cluster : Type 0) : Type 0 where
  pub hmac : Cluster → Bytes → Result Error Bytes
  pub validate : Cluster → Bytes → Bytes → Result Error (Bool × Bytes)

-- `hash key message` is the HMAC with SHA-256 of the standard library.
module _ (k : Client) (hash : Bytes → Bytes → Bytes) where
  open k use {Cluster, get, create}

  unfoldable pub mac_message : Bytes → Bytes → Result Error Bytes
  mac_message key message = elim (validate_key_length key) [
    | none ↦ ok (hash key message)
    | some e ↦ err e
  ]

  unfoldable pub validate_mac : Bytes → Bytes → Bytes → Result Error (Bool × Bytes)
  validate_mac message message_mac key = elim (mac_message key message) [
    | err e ↦ err e
    | ok expected ↦ ok (message_mac == expected, expected)
  ]

  unfoldable pub create_hmac_key_secret :
      ObjectKey → Bytes → Cluster → Cluster × Result Error Secret
  create_hmac_key_secret obj_key key c =
      let (d, r) = create (hmac_key_secret obj_key key) c in
      elim r [ err e ↦ (d, err (api e)) | ok s ↦ (d, ok s) ]

  -- generateHMACKey; `random n` is the outcome of reading n random bytes.
  unfoldable pub generate_hmac_key : (ℕ → Result Error Bytes) → Result Error Bytes
  generate_hmac_key random = elim (random 16) [
    | err e ↦ err e
    | ok key ↦ elim (validate_key_length key) [ none ↦ ok key | some e ↦ err e ]
  ]

  unfoldable pub get_hmac_key_secret : ObjectKey → Cluster → Result Error Secret
  get_hmac_key_secret obj_key c = elim (validate_object_key obj_key) [
    | some e ↦ err e
    | none ↦ elim (get obj_key c) [
      | err e ↦ err (reading_hmac_key obj_key (api e))
      | ok s ↦ elim (validate_hmac_key_secret s) [ ok _ ↦ ok s | err e ↦ err e ]
    ]
  ]

  unfoldable pub get_hmac_key_from_secret : ObjectKey → Cluster → Result Error Bytes
  get_hmac_key_from_secret obj_key c = elim (get_hmac_key_secret obj_key c) [
    | err e ↦ err e
    | ok s ↦ validate_hmac_key_secret s
  ]

  unfoldable pub hmac_from_secret : ObjectKey → Cluster → Bytes → Result Error Bytes
  hmac_from_secret obj_key c message = elim (get_hmac_key_from_secret obj_key c) [
    | err e ↦ err e
    | ok key ↦ mac_message key message
  ]

  unfoldable pub validate_mac_from_secret :
      ObjectKey → Cluster → Bytes → Bytes → Result Error (Bool × Bytes)
  validate_mac_from_secret obj_key c message message_mac =
      elim (get_hmac_key_from_secret obj_key c) [
        | err e ↦ err e
        | ok key ↦ validate_mac message message_mac key
      ]

  unfoldable pub new_hmac_validator : ObjectKey → HmacValidator Cluster
  new_hmac_validator obj_key = record {
    hmac = hmac_from_secret obj_key;
    validate = validate_mac_from_secret obj_key;
  }

  -- `encode` is json.Marshal of the data of a Secret, `decode` the standard base64 decoding.
  module _ (encode : Map String Bytes → Result Error Bytes) (decode : String → Result Error Bytes)
      (validator : HmacValidator Cluster) where
    -- The drift of a destination Secret, which may be missing.
    unfoldable pub has_mac : Option Secret → Bytes → Cluster → Result Error Bool
    has_mac none last c = ok false
    has_mac (some s) last c = elim (encode s.contents) [
      | err e ↦ err e
      | ok message ↦ elim (validator.validate c message last) [
        | err e ↦ err e
        | ok (equal, _) ↦ ok equal
      ]
    ]

    unfoldable pub hmac_destination_secret : Object → Cluster → Result Error Bool
    hmac_destination_secret obj c = do
      cur ← get_secret_mac obj
      elim (cur == "") [
        | true ↦ ok false
        | false ↦ do
          last ← decode cur
          found ← get_secret_exists_for_obj k obj c
          has_mac found last c
      ]

    -- Whether the data that was read still has the MAC in the resource's status, and the
    -- destination too; and the MAC of the data.
    unfoldable pub handle_secret_hmac :
        Object → Map String Bytes → Cluster → Result Error (Bool × Bytes)
    handle_secret_hmac obj contents c = do
      cur ← get_secret_mac obj
      message ← encode contents
      new_mac ← validator.hmac c message
      elim (cur == "") [
        | true ↦ ok (false, new_mac)
        | false ↦ do
          last ← decode cur
          elim (last == new_mac) [
            | false ↦ ok (false, new_mac)
            | true ↦ do equal ← hmac_destination_secret obj c; ok (equal, new_mac)
          ]
      ]
