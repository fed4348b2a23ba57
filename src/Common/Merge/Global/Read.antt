-- ===== src/Common/Merge/Global/Read.antt =====
-- Which VaultAuthGlobal is found: the search for the default one, and what is known of the outcome.
use mathlib.Core.Path.{subst}
use vault_secrets_operator.Base.{
  ◌≡◌, inl, inr, refl, sym, ◌∙◌, String, Bool, true, false, Option, none, some, List, [], ◌∷◌,
  arith, Bool-cases, if◌then◌else◌, ◌==◌, text_key, eq_iff, contains, All,
}
use vault_secrets_operator.Base.Result.{Result, ok, err, Result-cases}
use vault_secrets_operator.Api.Names.{ObjectKey}
use vault_secrets_operator.Api.Secret.{ApiError, is_not_found}
use vault_secrets_operator.Api.VaultAuth.{VaultAuth, VaultAuthGlobal, VaultAuthGlobalRef}
use vault_secrets_operator.Common.Errors.{Error, api, default_vault_auth_not_found}
use vault_secrets_operator.Common.Refs.{name_default, is_allowed_namespace}
use vault_secrets_operator.Common.Merge.Global.{
  allowed_global, get_global, find_from, find_vault_auth_global_default,
  vault_auth_global_resource_ref, with_default_vault_auth_global, search_namespaces,
}

abbrev pub default_key : String → ObjectKey
default_key ns = record { namespace = ns; name = name_default }

module _ (operator_namespace : String) (get : ObjectKey → Result ApiError VaultAuthGlobal) where
  -- The object is one that the client returned.
  pub WasRead : VaultAuthGlobal → Type 0
  WasRead g = (key : ObjectKey) × (get key ≡ ok g)

  -- The search without a record of what was seen.
  unfoldable pub first_default : List String → List String → Result Error VaultAuthGlobal
  first_default all [] = err (default_vault_auth_not_found all)
  first_default all (ns ∷ rest) =
      let next = first_default all rest in
      if ns == "" then next else elim (get (default_key ns)) [
        | ok g ↦ ok g
        | err e ↦ if is_not_found e then next else err (api e)
      ]

  unfoldable missing : String → Bool
  missing ns = elim (get (default_key ns)) [ ok g ↦ false | err e ↦ is_not_found e ]

  contains-missing :
      (ns : String) (seen : List String)
      → All (λ n. missing n ≡ true) seen
      → contains ns seen ≡ true
      → missing ns ≡ true
  unfolding contains
  contains-missing ns [] h c = ground arith
  contains-missing ns (n ∷ seen) h c = ground (arith, contains-missing ns seen, eq_iff n ns)

  find_from-first_default :
      (all seen namespaces : List String)
      → All (λ n. missing n ≡ true) seen
      → find_from operator_namespace get all seen namespaces ≡ first_default all namespaces
  unfolding find_from first_default missing contains
  find_from-first_default all seen [] h = refl
  find_from-first_default all seen (ns ∷ rest) h = ground (
    arith,
    find_from-first_default all seen rest,
    find_from-first_default all (ns ∷ seen) rest,
    contains-missing ns seen,
  )

  first_default-WasRead :
      (all namespaces : List String) (g : VaultAuthGlobal)
      → first_default all namespaces ≡ ok g
      → WasRead g
  unfolding first_default WasRead
  first_default-WasRead all [] g h = ground arith
  first_default-WasRead all (ns ∷ rest) g h = elim (Bool-cases (ns == "")) [
    | inl empty ↦ first_default-WasRead all rest g (ground arith)
    | inr given ↦ elim (Result-cases (get (default_key ns))) [
      | inl (x, e) ↦ first_default-WasRead all rest g (ground arith)
      | inr (found, e) ↦ (default_key ns, ground arith)
    ]
  ]

  -- Keeping a record of the namespaces that were seen changes nothing: the search returns the
  -- default VaultAuthGlobal of the first non-empty namespace of the list for which the client does
  -- not answer "not found", the client's other errors, or, past the end, its own error.
  pub find_vault_auth_global_default-first_default :
      (namespaces : List String)
      → find_vault_auth_global_default operator_namespace get namespaces
        ≡ first_default namespaces namespaces
  unfolding find_vault_auth_global_default
  find_vault_auth_global_default-first_default namespaces =
      find_from-first_default namespaces [] namespaces tt

  get_global-WasRead :
      (with_default : Bool) (o : VaultAuth) (found : ObjectKey × Option Error) (g : VaultAuthGlobal)
      → get_global operator_namespace get with_default o found ≡ ok g
      → WasRead g
  unfolding get_global WasRead
  get_global-WasRead with_default o (ref, none) g h = (ref, ground arith)
  get_global-WasRead with_default o (ref, some e) g h = first_default-WasRead _ _ g (
      sym (
        find_vault_auth_global_default-first_default
          (search_namespaces operator_namespace get o ref))
      ∙ ground arith)

  -- The VaultAuthGlobal that is merged was returned by the client, and may be used in the
  -- VaultAuth's namespace.
  pub allowed_global-WasRead :
      (opts : Option Bool) (o : VaultAuth) (r : VaultAuthGlobalRef) (ref : ObjectKey)
      (g : VaultAuthGlobal)
      → allowed_global operator_namespace get opts o r ≡ ok (ref, g)
      → WasRead g
        × (is_allowed_namespace operator_namespace g.key o.key.namespace g.spec.allowed_namespaces
            ≡ true)
  unfolding allowed_global
  allowed_global-WasRead opts o r ref g h =
      elim (Result-cases (with_default_vault_auth_global opts o r)) [
        | inl (x, e) ↦ absurd (ground arith)
        | inr (b, e) ↦
            elim (Result-cases
              (get_global operator_namespace get b o (vault_auth_global_resource_ref o))) [
                | inl (x, k) ↦ absurd (ground arith)
                | inr (found, k) ↦ (
                  subst WasRead (ground arith)
                      (get_global-WasRead b o (vault_auth_global_resource_ref o) found k),
                  ground arith,
                )
              ]
      ]
