-- ===== src/Vault/CacheKey/AppRole/Examples.antt =====
-- A client with an appRole, for a function that puts the letter R in lower case.
use Prim.Native.String
use Prim.Native.Char.{code}
use vault_secrets_operator.Base.{
  ℕ, ◌≡◌, refl, sym, ap, ◌∙◌, String, true, none, [], text_key, nat_eq, if◌then◌else◌, contains,
  arith, eq_iff,
}
use vault_secrets_operator.Base.Result.{ok, err}
use vault_secrets_operator.Api.VaultAuth.{VaultAuth}
use vault_secrets_operator.Vault.CacheKey.{
  Connection, byte_length, validate_uid, key_errors, cache_key_text, compute_client_cache_key, dash,
}
use vault_secrets_operator.Vault.CacheKey.Clone.{invalid_cache_key, parent, client_cache_key_clone}
use vault_secrets_operator.Vault.Lru.Slot.{slot}
use vault_secrets_operator.Vault.Cache.{ClientCache, invalid_key, add}
use vault_secrets_operator.Vault.CacheKey.AppRole.{app_role-refused}

unfoldable lower_r : String → String
lower_r String.[] = String.[]
lower_r (String.◌∷◌ c s) = String.◌∷◌ (if nat_eq (code c) 82 then "r" else c) (lower_r s)

lower_r-append : (s t : String) → lower_r (String.◌++◌ s t) ≡ String.◌++◌ (lower_r s) (lower_r t)
unfolding lower_r
lower_r-append String.[] t = ap lower_r (String.append.nil t) ∙ sym (String.append.nil (lower_r t))
lower_r-append (String.◌∷◌ c s) t =
    let d = if nat_eq (code c) 82 then "r" else c in
    ap lower_r (String.append.cons c s t)
    ∙ (ap (String.◌∷◌ d) (lower_r-append s t) ∙ sym (String.append.cons d (lower_r s) (lower_r t)))

lower_r-dash : (s : String) → lower_r (dash "appRole" s) ≡ dash "approle" (lower_r s)
unfolding lower_r
lower_r-dash s =
    lower_r-append "appRole" (String.◌++◌ "-" s) ∙ ap (String.◌++◌ "approle") (lower_r-append "-" s)

abbrev auth : VaultAuth
auth = record {
  key = record { namespace = "team"; name = "auth" };
  uid = "aaaaaaaa-0000-0000-0000-000000000001";
  generation = 1;
  labels = [];
  spec = record {
    vault_connection_ref = "";
    vault_auth_global_ref = none;
    namespace = "";
    allowed_namespaces = [];
    method = "appRole";
    mount = "approle";
    params = [];
    headers = [];
    kubernetes = none;
    app_role = none;
    jwt = none;
    aws = none;
    gcp = none;
    storage_encryption = none;
  };
}

abbrev conn : Connection
conn = record { uid = "bbbbbbbb-0000-0000-0000-000000000001"; generation = 1 }

abbrev provider : String
provider = "cccccccc-0000-0000-0000-000000000001"

abbrev decimal : ℕ → String
decimal n = "1"

abbrev hash_string : String → String
hash_string s = "2a8108711ae49ac0faa724"

abbrev key : String
key = "approle-2a8108711ae49ac0faa724"

computes : compute_client_cache_key decimal hash_string lower_r auth conn provider ≡ ok key
unfolding compute_client_cache_key cache_key_text key_errors validate_uid byte_length contains
    lower_r
computes = refl

abbrev empty : ClientCache slot
empty = record {
  cache = none;
  clone_cache = none;
  evicted = [];
  evictions = 0;
  hits = 0;
  misses = 0;
  clone_evictions = 0;
  clone_hits = 0;
  clone_misses = 0;
}

abbrev ns1 : String
ns1 = "ns1"

app_role-refused_example :
    (parent key ≡ err (invalid_cache_key key))
    × (client_cache_key_clone key ns1 ≡ ok "approle-2a8108711ae49ac0faa724-ns1")
    × (add slot
          (record { id = 2; cache_key = ok "approle-2a8108711ae49ac0faa724-ns1"; clone = true })
          empty
        ≡ (empty, err (invalid_key "approle-2a8108711ae49ac0faa724-ns1")))
app_role-refused_example =
    app_role-refused decimal hash_string lower_r lower_r-dash slot auth conn provider key ns1 2
      empty refl computes (ground (arith, eq_iff ns1 ""))
