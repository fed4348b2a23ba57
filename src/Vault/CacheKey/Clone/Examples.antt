-- ===== src/Vault/CacheKey/Clone/Examples.antt =====
-- Keys and clones of them, as in the tests of vault/cache_key.go.
use vault_secrets_operator.Base.{◌≡◌, refl, true, false, text_key}
use vault_secrets_operator.Base.Result.{ok}
use vault_secrets_operator.Vault.CacheKey.Clone.{
  strip_prefix, is_hex_digit, take_hex, match_method, match_key, is_line, is_suffix, is_clone,
  parent,
}

kubernetes_clone : is_clone "kubernetes-2a8108711ae49ac0faa724-ns1" ≡ true
unfolding is_clone match_key match_method take_hex strip_prefix is_hex_digit is_suffix is_line
kubernetes_clone = refl

kubernetes_parent :
    parent "kubernetes-2a8108711ae49ac0faa724-ns1" ≡ ok "kubernetes-2a8108711ae49ac0faa724"
unfolding parent match_key match_method take_hex strip_prefix is_hex_digit
kubernetes_parent = refl

-- The key that is computed for an appRole is in lower case.
app_role_clone : is_clone "approle-2a8108711ae49ac0faa724-ns1" ≡ false
unfolding is_clone match_key match_method take_hex strip_prefix is_hex_digit is_suffix is_line
app_role_clone = refl
