-- ===== src/Api/PkiSecret.antt =====
-- api/v1beta1/vaultpkisecret_types.go.
use Prim.Native.String
use vault_secrets_operator.Base.{
  ℕ, String, Bool, true, Option, List, [], ◌∷◌, ◌==◌, text_key, if◌then◌else◌,
}
use vault_secrets_operator.Base.Map
use vault_secrets_operator.Base.Map.{Map}
use vault_secrets_operator.Api.Syncable.{Meta, VaultSpec, Object, vault_pki_secret}
use vault_secrets_operator.Vault.Responses.{Value, text, boolean}

-- The fields that a VaultPKISecret has beyond those of every syncable resource.
pub record PkiSpec : Type 0 where
  pub mount : String
  pub role : String
  pub revoke : Bool
  pub clear : Bool
  pub expiry_offset : String
  pub issuer_ref : String
  pub common_name : String
  pub alt_names : List String
  pub ip_sans : List String
  pub uri_sans : List String
  pub other_sans : List String
  pub user_ids : List String
  pub time_to_live : String  -- TTL
  pub format : String
  pub private_key_format : String
  pub not_after : String
  pub exclude_cn_from_sans : Bool

-- `secret_mac` is in the VaultSpec. Times are in seconds.
pub record PkiStatus : Type 0 where
  pub serial_number : String
  pub expiration : ℕ
  pub last_generation : ℕ
  pub last_rotation : ℕ
  pub valid : Option Bool
  pub error : String

pub record PkiSecret : Type 0 where
  pub meta : Meta
  pub deleting : Bool  -- GetDeletionTimestamp() != nil
  pub finalizers : List String
  pub common : VaultSpec
  pub spec : PkiSpec
  pub status : PkiStatus

abbrev pub to_object : PkiSecret → Object
to_object o = vault_pki_secret o.meta o.common

-- strings.Join
unfoldable pub join : String → List String → String
join separator [] = ""
join separator (x ∷ []) = x
join separator (x ∷ y ∷ ys) = String.◌++◌ x (String.◌++◌ separator (join separator (y ∷ ys)))

-- What is set only where it is not empty.
unfoldable pub put_if_set : String → String → Map String Value → Map String Value
put_if_set name v m = if v == "" then m else Map.put name (text v) m

unfoldable pub get_issuer_api_data : PkiSpec → Map String Value
get_issuer_api_data s = put_if_set "private_key_format" s.private_key_format (
    put_if_set "format" s.format (
      ("common_name", text s.common_name)
      ∷ ("alt_names", text (join "," s.alt_names))
      ∷ ("ip_sans", text (join "," s.ip_sans))
      ∷ ("uri_sans", text (join "," s.uri_sans))
      ∷ ("other_sans", text (join "," s.other_sans))
      ∷ ("user_ids", text (join "," s.user_ids))
      ∷ ("ttl", text s.time_to_live)
      ∷ ("not_after", text s.not_after)
      ∷ ("exclude_cn_from_sans", boolean s.exclude_cn_from_sans)
      ∷ ("remove_roots_from_chain", boolean true)
      ∷ []))
