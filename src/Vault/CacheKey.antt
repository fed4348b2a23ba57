-- ===== src/Vault/CacheKey.antt =====
-- vault/cache_key.go: the key under which a client of Vault is kept.
pub mod AppRole
pub mod Clone
mod Examples
use Prim.Native.String
use Prim.Native.Char.{Char, code}
use vault_secrets_operator.Base.{
  ℕ, ◌+◌, ◌≤◌, ◌≡◌, ◌≢◌, ◌↔◌, String, Bool, not, List, [], ◌∷◌, ◌++◌, arith, ◌==◌, text_key, eq_iff,
  ltb, leb, nat_eq, if◌then◌else◌, contains,
}
use vault_secrets_operator.Base.Result.{Result, ok, err}
use vault_secrets_operator.Api.VaultAuth.{VaultAuth}

pub data KeyError : Type 0 where
  empty_method key_length_exceeded : KeyError
  invalid_uid_length : ℕ → KeyError
  duplicate_uid : String → KeyError

-- The VaultConnection, as far as the key depends on it.
pub record Connection : Type 0 where
  pub uid : String
  pub generation : ℕ

-- len(s): the bytes of the UTF-8 encoding.
unfoldable pub byte_length : String → ℕ
byte_length String.[] = 0
byte_length (String.◌∷◌ c s) =
    (if ltb (code c) 128
      then 1
      else if ltb (code c) 2048
      then 2
      else if ltb (code c) 65536
      then 3
      else 4)
    + byte_length s

-- What validateUID finds wrong with a UID, after those that it has seen.
unfoldable pub validate_uid : List String → String → List KeyError
validate_uid seen uid =
    (if nat_eq (byte_length uid) 36 then [] else invalid_uid_length (byte_length uid) ∷ [])
    ++ (if contains uid seen then duplicate_uid uid ∷ [] else [])

unfoldable pub key_errors : String → String → String → String → List KeyError
key_errors method auth conn provider =
    (if method == "" then empty_method ∷ [] else [])
    ++ (validate_uid [] auth
        ++ (validate_uid (auth ∷ []) conn ++ validate_uid (conn ∷ auth ∷ []) provider))

abbrev pub dash : String → String → String
dash a b = String.◌++◌ a (String.◌++◌ "-" b)

abbrev pub dot : String → String → String
dot a b = String.◌++◌ a (String.◌++◌ "." b)

-- `decimal` prints a number, `hash_string` is HashString and `to_lower` is strings.ToLower.
module _ (decimal : ℕ → String) (hash_string to_lower : String → String) where
  unfoldable pub cache_key_text : VaultAuth → Connection → String → String
  cache_key_text auth conn provider = to_lower (
      dash auth.spec.method (
        hash_string (
          dot (dash auth.uid (decimal auth.generation))
            (dot (dash conn.uid (decimal conn.generation)) provider))))

  unfoldable pub compute_client_cache_key :
      VaultAuth → Connection → String → Result (List KeyError) String
  compute_client_cache_key auth conn provider =
      elim (key_errors auth.spec.method auth.uid conn.uid provider) [
        | e ∷ es ↦ err (e ∷ es)
        | [] ↦
            if ltb 63 (byte_length (cache_key_text auth conn provider))
            then err (key_length_exceeded ∷ [])
            else ok (cache_key_text auth conn provider)
      ]

  -- A key is computed exactly if the auth method is set, the three UIDs are of 36 bytes and differ,
  -- and the text of the key fits into 63 bytes; the key is then that text.
  pub compute_client_cache_key_iff :
      (auth : VaultAuth) (conn : Connection) (provider key : String)
      → (compute_client_cache_key auth conn provider ≡ ok key) ↔ (
          (auth.spec.method ≢ "")
          × (byte_length auth.uid ≡ 36)
          × (byte_length conn.uid ≡ 36)
          × (byte_length provider ≡ 36)
          × (auth.uid ≢ conn.uid)
          × (auth.uid ≢ provider)
          × (conn.uid ≢ provider)
          × (byte_length key ≤ 63)
          × (cache_key_text auth conn provider ≡ key))
  unfolding compute_client_cache_key key_errors validate_uid contains
  compute_client_cache_key_iff auth conn provider key = ground (
    arith,
    eq_iff auth.spec.method "",
    eq_iff auth.uid conn.uid,
    eq_iff auth.uid provider,
    eq_iff conn.uid provider,
  )
