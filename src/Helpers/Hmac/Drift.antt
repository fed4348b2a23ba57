-- ===== src/Helpers/Hmac/Drift.antt =====
-- What a MAC that compares equal says.
use vault_secrets_operator.Base.{
  ◌≡◌, ◌≢◌, ◌↔◌, String, true, none, some, inl, inr, arith, text_key, bytes_key, eq_iff,
}
use vault_secrets_operator.Base.Map.{Map}
use vault_secrets_operator.Base.Result.{Result, ok, Result-cases}
use vault_secrets_operator.Api.Names.{ObjectKey}
use vault_secrets_operator.Api.Secret.{Secret, Bytes}
use vault_secrets_operator.Api.Syncable.{Object}
use vault_secrets_operator.Kube.Client.{Client}
use vault_secrets_operator.Common.Errors.{Error}
use vault_secrets_operator.Helpers.Exists.{get_secret_exists_for_obj}
use vault_secrets_operator.Helpers.Hmac.{
  get_secret_mac, validate_key_length, validate_hmac_key_secret, mac_message, validate_mac,
  get_hmac_key_secret, get_hmac_key_from_secret, hmac_from_secret, validate_mac_from_secret,
  new_hmac_validator, has_mac, hmac_destination_secret, handle_secret_hmac,
}

module _ (k : Client) (hash : Bytes → Bytes → Bytes) (hmac_key : ObjectKey) where
  validate_hmac_key_secret-length :
      (s : Secret) (key : Bytes)
      → validate_hmac_key_secret s ≡ ok key
      → validate_key_length key ≡ none
  unfolding validate_hmac_key_secret
  validate_hmac_key_secret-length s key h = ground arith

  get_hmac_key-length :
      (c : k.Cluster) (key : Bytes)
      → get_hmac_key_from_secret k hash hmac_key c ≡ ok key
      → validate_key_length key ≡ none
  unfolding get_hmac_key_from_secret
  get_hmac_key-length c key h = elim (Result-cases (get_hmac_key_secret k hash hmac_key c)) [
    | inl (x, e) ↦ absurd (ground arith)
    | inr (s, e) ↦ validate_hmac_key_secret-length s key (ground arith)
  ]

  hmac_from_secret-key :
      (c : k.Cluster) (message m : Bytes)
      → hmac_from_secret k hash hmac_key c message ≡ ok m
      → (key : Bytes) × (get_hmac_key_from_secret k hash hmac_key c ≡ ok key)
        × (hash key message ≡ m)
  unfolding hmac_from_secret mac_message
  hmac_from_secret-key c message m h =
      elim (Result-cases (get_hmac_key_from_secret k hash hmac_key c)) [
        | inl (x, e) ↦ absurd (ground arith)
        | inr (key, e) ↦ (key, e, ground (arith, get_hmac_key-length c key e))
      ]

  module _ (encode : Map String Bytes → Result Error Bytes)
      (decode : String → Result Error Bytes) where
    -- The data and the destination have the MAC m, under the key that is stored, and so has the
    -- resource's status.
    pub record IsInSync (obj : Object) (contents : Map String Bytes) (c : k.Cluster) (m : Bytes)
        : Type 0 where
      pub key : Bytes
      pub key_stored : get_hmac_key_from_secret k hash hmac_key c ≡ ok key
      pub status : String
      pub status_of : get_secret_mac obj ≡ ok status
      pub status_set : status ≢ ""
      pub status_mac : decode status ≡ ok m
      pub message : Bytes
      pub encoded : encode contents ≡ ok message
      pub mac : hash key message ≡ m
      pub found : Secret
      pub found_at : get_secret_exists_for_obj k obj c ≡ ok (some found)
      pub found_message : Bytes
      pub found_encoded : encode found.contents ≡ ok found_message
      pub found_mac : hash key found_message ≡ m

    IsInSync-handled :
        (obj : Object) (contents : Map String Bytes) (c : k.Cluster) (m : Bytes)
        → IsInSync obj contents c m
        → handle_secret_hmac k hash encode decode
            (new_hmac_validator k hash hmac_key)
            obj
            contents
            c
          ≡ ok (true, m)
    unfolding handle_secret_hmac hmac_destination_secret has_mac new_hmac_validator hmac_from_secret
        validate_mac_from_secret validate_mac mac_message
    IsInSync-handled obj contents c m i = ground (
      arith,
      i.key_stored,
      i.status_of,
      i.status_set,
      i.status_mac,
      i.encoded,
      i.mac,
      i.found_at,
      i.found_encoded,
      i.found_mac,
      get_hmac_key-length c i.key i.key_stored,
      eq_iff i.status "",
      bytes_key.same_iff m m,
    )

    -- The destination's part of it: `m` is what the status decodes to.
    destination-IsInSync :
        (obj : Object) (c : k.Cluster) (status : String) (m : Bytes)
        → get_secret_mac obj ≡ ok status
        → decode status ≡ ok m
        → hmac_destination_secret k hash encode decode (new_hmac_validator k hash hmac_key) obj c
          ≡ ok true
        → (s : Secret) × (message : Bytes) × (key : Bytes) × (get_secret_exists_for_obj k obj c
            ≡ ok (some s))
          × (encode s.contents ≡ ok message)
          × (get_hmac_key_from_secret k hash hmac_key c ≡ ok key)
          × (hash key message ≡ m)
    unfolding hmac_destination_secret has_mac new_hmac_validator validate_mac_from_secret
        validate_mac mac_message
    destination-IsInSync obj c status m e d h =
        elim (Result-cases (get_secret_exists_for_obj k obj c)) [
          | inl (x, n) ↦ absurd (ground arith)
          | inr (none, n) ↦ absurd (ground arith)
          | inr (some s, n) ↦ elim (Result-cases (encode s.contents)) [
            | inl (x, l) ↦ absurd (ground arith)
            | inr (message, l) ↦ elim (Result-cases (get_hmac_key_from_secret k hash hmac_key c)) [
              | inl (x, g) ↦ absurd (ground arith)
              | inr (key, g) ↦ (
                s,
                message,
                key,
                n,
                l,
                g,
                ground
                    (arith, get_hmac_key-length c key g, bytes_key.same_iff m (hash key message)),
              )
            ]
          ]
        ]

    handled-IsInSync :
        (obj : Object) (contents : Map String Bytes) (c : k.Cluster) (m : Bytes)
        → handle_secret_hmac k hash encode decode
            (new_hmac_validator k hash hmac_key)
            obj
            contents
            c
          ≡ ok (true, m)
        → IsInSync obj contents c m
    unfolding handle_secret_hmac new_hmac_validator
    handled-IsInSync obj contents c m h = elim (Result-cases (get_secret_mac obj)) [
      | inl (x, e) ↦ absurd (ground arith)
      | inr (status, e) ↦ elim (Result-cases (encode contents)) [
        | inl (x, l) ↦ absurd (ground arith)
        | inr (message, l) ↦ elim (Result-cases (hmac_from_secret k hash hmac_key c message)) [
          | inl (x, g) ↦ absurd (ground arith)
          | inr (mac, g) ↦ elim (Result-cases (decode status)) [
            | inl (x, d) ↦ absurd (ground arith)
            | inr (last, d) ↦
                let same : decode status ≡ ok m = ground (arith, bytes_key.same_iff last mac) in
                let (key, stored, made) = hmac_from_secret-key c message m (ground arith) in
                let (s, text, other, n, o, p, q) =
                  destination-IsInSync obj c status m e same (ground arith) in
                record {
                  key = key;
                  key_stored = stored;
                  status = status;
                  status_of = e;
                  status_set = ground (arith, eq_iff status "");
                  status_mac = same;
                  message = message;
                  encoded = l;
                  mac = made;
                  found = s;
                  found_at = n;
                  found_message = text;
                  found_encoded = o;
                  found_mac = ground arith;
                }
          ]
        ]
      ]
    ]

    -- HandleSecretHMAC finds that nothing has changed, with the MAC m, exactly if m is the MAC, under
    -- the stored key, of the data that was read, the one that the resource's status holds, and the
    -- MAC of the data of the destination Secret, which exists.
    pub handle_secret_hmac_iff :
        (obj : Object) (contents : Map String Bytes) (c : k.Cluster) (m : Bytes)
        → (handle_secret_hmac k hash encode decode
              (new_hmac_validator k hash hmac_key)
              obj
              contents
              c
            ≡ ok (true, m))
          ↔ IsInSync obj contents c m
    handle_secret_hmac_iff obj contents c m =
        (handled-IsInSync obj contents c m, IsInSync-handled obj contents c m)
