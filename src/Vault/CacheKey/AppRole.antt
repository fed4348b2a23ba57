-- ===== src/Vault/CacheKey/AppRole.antt =====
-- vault/cache_key.go and vault/cache.go for the auth method appRole, whose keys are in lower case.
mod Examples
use Prim.Native.String
use mathlib.Core.Path.{subst}
use vault_secrets_operator.Base.{
  ℕ, ◌≡◌, ◌≢◌, refl, sym, ap, ◌∙◌, String, Bool, true, false, not, Option, none, some, List, [],
  ◌∷◌, arith, text_key, eq_iff, ◌==◌, if◌then◌else◌, leb, ltb, is_some,
}
use vault_secrets_operator.Base.Result.{Result, ok, err}
use vault_secrets_operator.Api.VaultAuth.{VaultAuth}
use vault_secrets_operator.Vault.CacheKey.{
  Connection, compute_client_cache_key, cache_key_text, dot, compute_client_cache_key_iff, dash,
}
use vault_secrets_operator.Vault.CacheKey.Clone.{
  provider_methods_supported, invalid_cache_key, strip_prefix, match_method, match_key, is_clone,
  parent, client_cache_key_clone,
}
use vault_secrets_operator.Vault.Lru.{Lru}
use vault_secrets_operator.Vault.Cache.{Client, ClientCache, invalid_key, add}

-- A text that begins with the first letters of a key for an appRole.
abbrev begins_app_r : String → String
begins_app_r t = String.◌∷◌ "a" (String.◌∷◌ "p" (String.◌∷◌ "p" (String.◌∷◌ "r" t)))

dash-begins_app_r :
    (t : String) → dash "approle" t ≡ begins_app_r (String.◌++◌ "ole" (String.◌++◌ "-" t))
dash-begins_app_r t =
    let u = String.◌++◌ "-" t in
    String.append.cons "a" "pprole" u
    ∙ ap (String.◌∷◌ "a") (
        String.append.cons "p" "prole" u
        ∙ ap (String.◌∷◌ "p") (
            String.append.cons "p" "role" u ∙ ap (String.◌∷◌ "p") (String.append.cons "r" "ole" u)))

begins_app_r-append :
    (t u : String) → String.◌++◌ (begins_app_r t) u ≡ begins_app_r (String.◌++◌ t u)
begins_app_r-append t u = simp (String.append.cons)

match_key-begins_app_r : (t : String) → match_key provider_methods_supported (begins_app_r t) ≡ none
unfolding match_key match_method strip_prefix
match_key-begins_app_r t = refl

-- No pattern for the keys matches such a text.
begins_app_r-parent :
    (t : String)
    → (parent (begins_app_r t) ≡ err (invalid_cache_key (begins_app_r t)))
      × (is_clone (begins_app_r t) ≡ false)
unfolding parent is_clone
begins_app_r-parent t = ground (arith, match_key-begins_app_r t)

module _ (decimal : ℕ → String) (hash_string to_lower : String → String)
    (lower : (s : String) → to_lower (dash "appRole" s) ≡ dash "approle" (to_lower s))
    (l : Lru String Client) where
  made_clone :
      (key ns : String)
      → is_clone key ≡ false
      → ns ≢ ""
      → client_cache_key_clone key ns ≡ ok (String.◌++◌ key (String.◌++◌ "-" ns))
  unfolding client_cache_key_clone
  made_clone key ns plain nonempty = ground (arith, eq_iff ns "")

  refused_add :
      (key : String) (id : ℕ) (s : ClientCache l)
      → is_clone key ≡ false
      → add l (record { id = id; cache_key = ok key; clone = true }) s ≡ (s, err (invalid_key key))
  unfolding add
  refused_add key id s plain = ground arith

  app_role_key-begins :
      (auth : VaultAuth) (conn : Connection) (provider key : String)
      → auth.spec.method ≡ "appRole"
      → compute_client_cache_key decimal hash_string to_lower auth conn provider ≡ ok key
      → (t : String) × (key ≡ begins_app_r t)
  unfolding cache_key_text
  app_role_key-begins auth conn provider key method e =
      let (_, _, _, _, _, _, _, _, same) =
        (compute_client_cache_key_iff decimal hash_string to_lower auth conn provider key).0 e in
      let h = hash_string (
        dot (dash auth.uid (decimal auth.generation))
          (dot (dash conn.uid (decimal conn.generation)) provider)) in
      (
        String.◌++◌ "ole" (String.◌++◌ "-" (to_lower h)),
        sym same
            ∙ (ap (λ m. to_lower (dash m h)) method ∙ (lower h ∙ dash-begins_app_r (to_lower h))),
      )

  -- A client that was authenticated by an appRole has a key without a parent, and though a key for
  -- its clone is made, the cache refuses the clone: the method of the key was put in lower case, and
  -- the patterns for the keys have it in mixed case.
  pub app_role-refused :
      (auth : VaultAuth) (conn : Connection) (provider key ns : String) (id : ℕ) (s : ClientCache l)
      → auth.spec.method ≡ "appRole"
      → compute_client_cache_key decimal hash_string to_lower auth conn provider ≡ ok key
      → ns ≢ ""
      → let clone = String.◌++◌ key (String.◌++◌ "-" ns) in
        (parent key ≡ err (invalid_cache_key key))
        × (client_cache_key_clone key ns ≡ ok clone)
        × (add l (record { id = id; cache_key = ok clone; clone = true }) s
            ≡ (s, err (invalid_key clone)))
  app_role-refused auth conn provider key ns id s method e nonempty =
      let (t, begins) = app_role_key-begins auth conn provider key method e in
      let suffix = String.◌++◌ "-" ns in
      let (no_parent, plain) = begins_app_r-parent t in
      let (_, no_clone) = begins_app_r-parent (String.◌++◌ t suffix) in
      let clone_plain : is_clone (String.◌++◌ key suffix) ≡ false =
        rw (begins, begins_app_r-append) no_clone in
      (
        subst (λ k. parent k ≡ err (invalid_cache_key k)) (sym begins) no_parent,
        made_clone key ns (subst (λ k. is_clone k ≡ false) (sym begins) plain) nonempty,
        refused_add (String.◌++◌ key suffix) id s clone_plain,
      )
