-- ===== src/Common/Merge.antt =====
-- common/common.go: MergeInVaultAuthGlobal as a whole. Its steps are in the child modules.
pub mod Global
pub mod Config
pub mod Fields
pub mod Outcome
pub mod Total
use vault_secrets_operator.Base.{String, Bool, Option, none, some}
use vault_secrets_operator.Base.Result.{Result, ok, err, ◌>>=◌}
use vault_secrets_operator.Api.Names.{ObjectKey}
use vault_secrets_operator.Api.Secret.{ApiError}
use vault_secrets_operator.Api.VaultAuth.{
  VaultAuth, VaultAuthSpec, VaultAuthGlobal, VaultAuthGlobalRef, VaultAuthGlobalSpec,
}
use vault_secrets_operator.Common.Errors.{Error}
use vault_secrets_operator.Common.Merge.Global.{allowed_global}
use vault_secrets_operator.Common.Merge.Config.{provider_method, merge_method, merge_provider}
use vault_secrets_operator.Common.Merge.Fields.{merge_fields}

-- What follows once the VaultAuthGlobal is at hand.
unfoldable pub merge_spec :
    ObjectKey
    → ObjectKey
    → VaultAuthGlobalRef
    → VaultAuthGlobalSpec
    → VaultAuthSpec
    → Result Error VaultAuthSpec
merge_spec o ref r g spec = do
  method ← merge_method o ref g spec
  (configured, d) ← merge_provider ref g (record spec { method = method }) (provider_method method)
  merge_fields o ref r g d configured

module _ (operator_namespace : String) (get : ObjectKey → Result ApiError VaultAuthGlobal) where
  unfoldable pub merge_with :
      Option Bool
      → VaultAuth
      → VaultAuthGlobalRef
      → Result Error (VaultAuth × Option VaultAuthGlobal)
  merge_with opts o r = do
    (ref, g) ← allowed_global operator_namespace get opts o r
    spec ← merge_spec o.key ref r g.spec o.spec
    ok (record o { spec = spec }, some g)

  unfoldable pub merge_in_vault_auth_global :
      Option Bool → VaultAuth → Result Error (VaultAuth × Option VaultAuthGlobal)
  merge_in_vault_auth_global opts o = elim o.spec.vault_auth_global_ref [
    | none ↦ ok (o, none)
    | some r ↦ merge_with opts o r
  ]
