-- ===== src/Vault/CacheKey/Examples.antt =====
-- The key of a client, with a hash of a fixed text.
use vault_secrets_operator.Base.{
  ℕ, ◌≤◌, ◌≡◌, ◌≢◌, ◌↔◌, refl, String, none, [], ◌∷◌, text_key, contains,
}
use vault_secrets_operator.Base.Result.{ok, err}
use vault_secrets_operator.Api.VaultAuth.{VaultAuth}
use vault_secrets_operator.Vault.CacheKey.{
  duplicate_uid, Connection, byte_length, validate_uid, key_errors, cache_key_text,
  compute_client_cache_key, compute_client_cache_key_iff,
}

abbrev auth : VaultAuth
auth = record {
  key = record { namespace = "team"; name = "auth" };
  uid = "aaaaaaaa-0000-0000-0000-000000000001";
  generation = 1;
  labels = [];
  spec = record {
    vault_connection_ref = "";
    vault_auth_global_ref = none;
    namespace = "";
    allowed_namespaces = [];
    method = "kubernetes";
    mount = "k8s";
    params = [];
    headers = [];
    kubernetes = none;
    app_role = none;
    jwt = none;
    aws = none;
    gcp = none;
    storage_encryption = none;
  };
}

abbrev conn : Connection
conn = record { uid = "bbbbbbbb-0000-0000-0000-000000000001"; generation = 1 }

abbrev provider : String
provider = "cccccccc-0000-0000-0000-000000000001"

abbrev decimal : ℕ → String
decimal n = "1"

abbrev hash_string : String → String
hash_string s = "2a8108711ae49ac0faa724"

abbrev to_lower : String → String
to_lower s = s

computes :
    compute_client_cache_key decimal hash_string to_lower auth conn provider
    ≡ ok "kubernetes-2a8108711ae49ac0faa724"
unfolding compute_client_cache_key cache_key_text key_errors validate_uid byte_length contains
computes = refl

same_uid :
    compute_client_cache_key decimal hash_string to_lower auth conn conn.uid
    ≡ err (duplicate_uid conn.uid ∷ [])
unfolding compute_client_cache_key key_errors validate_uid byte_length contains
same_uid = refl

compute_client_cache_key_iff_example :
    (compute_client_cache_key decimal hash_string to_lower auth conn provider
      ≡ ok "kubernetes-2a8108711ae49ac0faa724")
    ↔ ((auth.spec.method ≢ "")
        × (byte_length auth.uid ≡ 36)
        × (byte_length conn.uid ≡ 36)
        × (byte_length provider ≡ 36)
        × (auth.uid ≢ conn.uid)
        × (auth.uid ≢ provider)
        × (conn.uid ≢ provider)
        × (byte_length "kubernetes-2a8108711ae49ac0faa724" ≤ 63)
        × (cache_key_text decimal hash_string to_lower auth conn provider
            ≡ "kubernetes-2a8108711ae49ac0faa724"))
compute_client_cache_key_iff_example =
    compute_client_cache_key_iff decimal hash_string to_lower auth conn provider
      "kubernetes-2a8108711ae49ac0faa724"
