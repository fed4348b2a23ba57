-- ===== src/Helpers/Hmac/Key.antt =====
-- The key of the MACs: stored once, and read back.
use vault_secrets_operator.Base.{◌≡◌, refl, ap, Option, none, some, inl, inr, arith, text_key}
use vault_secrets_operator.Base.Map
use vault_secrets_operator.Base.Map.{Map}
use vault_secrets_operator.Base.Result.{ok, Result-cases}
use vault_secrets_operator.Api.Names.{ObjectKey}
use vault_secrets_operator.Api.Secret.{Secret, Bytes}
use vault_secrets_operator.Kube.Client.{Client, IsFaithful}
use vault_secrets_operator.Common.Refs.{validate_object_key}
use vault_secrets_operator.Helpers.Hmac.{
  hmac_key_name, hmac_key_secret, validate_key_length, validate_hmac_key_secret,
  create_hmac_key_secret, get_hmac_key_secret, get_hmac_key_from_secret,
}

key_of_created :
    (obj_key : ObjectKey) (key : Bytes)
    → Map.get hmac_key_name (hmac_key_secret obj_key key).contents ≡ some key
unfolding hmac_key_secret Map.get
key_of_created obj_key key = refl

module _ (k : Client) (stored : ObjectKey → k.Cluster → Option Secret) (f : IsFaithful k stored)
    (hash : Bytes → Bytes → Bytes) where
  created_contents :
      (obj_key : ObjectKey) (key : Bytes) (c d : k.Cluster) (s : Secret)
      → create_hmac_key_secret k hash obj_key key c ≡ (d, ok s)
      → (stored obj_key d ≡ some s) × (Map.get hmac_key_name s.contents ≡ some key)
  unfolding create_hmac_key_secret
  created_contents obj_key key c d s h =
      elim (Result-cases (k.create (hmac_key_secret obj_key key) c).1) [
        | inl (x, e) ↦ absurd (ground arith)
        | inr (t, e) ↦
            let (found, same) = f.create_ok (hmac_key_secret obj_key key) t c e in
            (
              unfold hmac_key_secret in ground arith,
              ground (arith, same.contents, key_of_created obj_key key),
            )
      ]

  -- A key of the right length that was stored under a complete name is what is read there
  -- afterwards, if the client reads the Secret at all.
  pub get_hmac_key-create_hmac_key_secret :
      (obj_key : ObjectKey) (key : Bytes) (c d : k.Cluster) (s t : Secret)
      → validate_object_key obj_key ≡ none
      → validate_key_length key ≡ none
      → create_hmac_key_secret k hash obj_key key c ≡ (d, ok s)
      → k.get obj_key d ≡ ok t
      → get_hmac_key_from_secret k hash obj_key d ≡ ok key
  unfolding get_hmac_key_from_secret get_hmac_key_secret validate_hmac_key_secret
  get_hmac_key-create_hmac_key_secret obj_key key c d s t v l h g =
      let (found, held) = created_contents obj_key key c d s h in
      let (read, _) = f.get_ok obj_key d t g in
      let same : t ≡ s = ground arith in
      ground (arith, ap (λ (x : Secret). Map.get hmac_key_name x.contents) same)
