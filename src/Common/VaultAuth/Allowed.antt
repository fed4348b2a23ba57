-- ===== src/Common/VaultAuth/Allowed.antt =====
-- Who may use which VaultAuth and which VaultAuthGlobal.
use vault_secrets_operator.Base.{
  ◌≡◌, ◌⊎◌, inl, inr, String, Bool, true, Option, none, some, List, arith, Option-cases,
}
use vault_secrets_operator.Base.Result.{Result, ok, Result-cases}
use vault_secrets_operator.Api.Names.{ObjectKey}
use vault_secrets_operator.Api.Secret.{ApiError}
use vault_secrets_operator.Api.VaultAuth.{VaultAuth, VaultAuthGlobal, VaultAuthGlobalRef}
use vault_secrets_operator.Common.Refs.{is_allowed_namespace}
use vault_secrets_operator.Common.Merge.{merge_in_vault_auth_global, merge_with, merge_spec}
use vault_secrets_operator.Common.Merge.Global.{allowed_global}
use vault_secrets_operator.Common.Merge.Global.Read.{WasRead, allowed_global-WasRead}

module _ (operator_namespace : String)
    (get_global : ObjectKey → Result ApiError VaultAuthGlobal) where
  abbrev may_use : ObjectKey → List String → String → Bool
  may_use key allowed ns = is_allowed_namespace operator_namespace key ns allowed

  merge_with-allowed :
      (opts : Option Bool) (o m : VaultAuth) (r : VaultAuthGlobalRef) (og : Option VaultAuthGlobal)
      → merge_with operator_namespace get_global opts o r ≡ ok (m, og)
      → (g : VaultAuthGlobal) × (og ≡ some g)
        × (m.key ≡ o.key)
        × WasRead operator_namespace get_global g
        × (may_use g.key g.spec.allowed_namespaces o.key.namespace ≡ true)
  unfolding merge_with
  merge_with-allowed opts o m r og h =
      elim (Result-cases (allowed_global operator_namespace get_global opts o r)) [
        | inl (x, e) ↦ absurd (ground arith)
        | inr ((ref, g), e) ↦
            let (read, allowed) =
              allowed_global-WasRead operator_namespace get_global opts o r ref g e in
            elim (Result-cases (merge_spec o.key ref r g.spec o.spec)) [
              | inl (x, k) ↦ absurd (ground arith)
              | inr (spec, k) ↦ (g, ground arith, ground arith, read, allowed)
            ]
      ]

  pub merge_in_vault_auth_global-allowed :
      (opts : Option Bool) (o m : VaultAuth) (og : Option VaultAuthGlobal)
      → merge_in_vault_auth_global operator_namespace get_global opts o ≡ ok (m, og)
      → ((o.spec.vault_auth_global_ref ≡ none) × (m ≡ o) × (og ≡ none))
        ⊎ ((g : VaultAuthGlobal) × (og ≡ some g)
            × (m.key ≡ o.key)
            × WasRead operator_namespace get_global g
            × (may_use g.key g.spec.allowed_namespaces o.key.namespace ≡ true))
  unfolding merge_in_vault_auth_global
  merge_in_vault_auth_global-allowed opts o m og h =
      elim (Option-cases o.spec.vault_auth_global_ref) [
        | inl e ↦ inl (e, ground arith, ground arith)
        | inr (r, e) ↦ inr (merge_with-allowed opts o m r og (ground arith))
      ]
