-- ===== src/Common/Merge/Total.antt =====
-- When a merge returns a spec.
use vault_secrets_operator.Base.{
  ◌≡◌, ◌≢◌, inl, inr, refl, ap, String, Bool, true, none, some, arith, ◌==◌, ◌||◌, text_key, eq_iff,
}
use vault_secrets_operator.Base.Map.{Map}
use vault_secrets_operator.Base.Result.{ok, Result-cases}
use vault_secrets_operator.Api.Names.{ObjectKey}
use vault_secrets_operator.Api.AuthConfig.{text_or}
use vault_secrets_operator.Api.AuthConfig.Merge.{
  kubernetes_config, jwt_config, app_role_config, aws_config, gcp_config,
}
use vault_secrets_operator.Api.VaultAuth.{VaultAuthSpec, VaultAuthGlobalRef, VaultAuthGlobalSpec}
use vault_secrets_operator.Common.Merge.{merge_spec}
use vault_secrets_operator.Common.Merge.Config.{
  ProviderMethod, provider_method, MethodDefaults, merge_method,
}
use vault_secrets_operator.Common.Merge.Config.Combined.{
  combined_spec, method_defaults, is_valid_spec, merge_provider_total,
}
use vault_secrets_operator.Common.Merge.Outcome.{combined_spec-fields}
use vault_secrets_operator.Common.Merge.Fields.{
  merge_fields, merge_mount, merge_by_strategy, params_merge_strategy, headers_merge_strategy,
  first_text_three,
}

unfoldable pub is_known_strategy : String → Bool
is_known_strategy s = s == "union" || (s == "replace" || s == "none")

merge_by_strategy_total :
    (strategy : String) (own of_method default : Map String String)
    → is_known_strategy strategy ≡ true
    → (m : Map String String) × (merge_by_strategy strategy own of_method default ≡ ok m)
unfolding merge_by_strategy is_known_strategy
merge_by_strategy_total strategy own of_method default h =
    elim (Result-cases (merge_by_strategy strategy own of_method default)) [
      | inl (x, e) ↦ absurd (ground arith)
      | inr (m, e) ↦ (m, e)
    ]

merge_mount_total :
    (o ref : ObjectKey) (g : VaultAuthGlobalSpec) (d : MethodDefaults) (own : String)
    → text_or own (text_or d.mount g.default_mount) ≢ ""
    → (mount : String) × (merge_mount o ref g d own ≡ ok mount)
unfolding merge_mount
merge_mount_total o ref g d own h = elim (Result-cases (merge_mount o ref g d own)) [
  | inl (x, e) ↦ absurd (
      ground (
        arith,
        first_text_three own d.mount g.default_mount,
        eq_iff (text_or own (text_or d.mount g.default_mount)) "",
      ))
  | inr (m, e) ↦ (m, e)
]

merge_fields_total :
    (o ref : ObjectKey) (r : VaultAuthGlobalRef) (g : VaultAuthGlobalSpec) (d : MethodDefaults)
    (s : VaultAuthSpec)
    → text_or s.mount (text_or d.mount g.default_mount) ≢ ""
    → is_known_strategy (params_merge_strategy r) ≡ true
    → is_known_strategy (headers_merge_strategy r) ≡ true
    → (m : VaultAuthSpec) × (merge_fields o ref r g d s ≡ ok m)
unfolding merge_fields
merge_fields_total o ref r g d s h hp hh =
    let (mount, e) = merge_mount_total o ref g d s.mount h in
    let (params, k) =
      merge_by_strategy_total (params_merge_strategy r) s.params d.params g.default_params hp in
    let (headers, l) =
      merge_by_strategy_total (headers_merge_strategy r) s.headers d.headers g.default_headers hh in
    elim (Result-cases (merge_fields o ref r g d s)) [
      | inl (x, n) ↦ absurd (ground arith)
      | inr done ↦ done
    ]

provider_method_nil : provider_method "" ≡ none
unfolding provider_method
provider_method_nil = refl

provider_method-ne-nil : (s : String) (p : ProviderMethod) → provider_method s ≡ some p → s ≢ ""
provider_method-ne-nil s p h e = absurd (ground (arith, ap provider_method e, provider_method_nil))

merge_method_total :
    (o ref : ObjectKey) (g : VaultAuthGlobalSpec) (s : VaultAuthSpec) (p : ProviderMethod)
    → provider_method (text_or s.method g.default_auth_method) ≡ some p
    → merge_method o ref g s ≡ ok (text_or s.method g.default_auth_method)
unfolding merge_method
merge_method_total o ref g s p h = ground (
  arith,
  eq_iff g.default_auth_method "",
  provider_method-ne-nil (text_or s.method g.default_auth_method) p h,
)

-- A merge succeeds if the method, the VaultAuth's own or the VaultAuthGlobal's default, is one of
-- the five, if the VaultAuthGlobal has a configuration for it that Validate accepts, whatever the
-- VaultAuth adds to it, if one of the two sides sets a mount, and if the strategies are known.
pub merge_spec_total :
    (o ref : ObjectKey) (r : VaultAuthGlobalRef) (g : VaultAuthGlobalSpec) (s : VaultAuthSpec)
    (p : ProviderMethod)
    → provider_method (text_or s.method g.default_auth_method) ≡ some p
    → is_valid_spec g p ≡ true
    → text_or s.mount (text_or (method_defaults g p).mount g.default_mount) ≢ ""
    → is_known_strategy (params_merge_strategy r) ≡ true
    → is_known_strategy (headers_merge_strategy r) ≡ true
    → (m : VaultAuthSpec) × (merge_spec o ref r g s ≡ ok m)
unfolding merge_spec
merge_spec_total o ref r g s p n v h hp hh =
    let method = text_or s.method g.default_auth_method in
    let c = combined_spec g (record s { method = method }) p in
    let fields = combined_spec-fields g s p method in
    let (m, e) = merge_fields_total o ref r g (method_defaults g p) c (ground arith) hp hh in
    (
      m,
      ground (
        arith,
        merge_method_total o ref g s p n,
        merge_provider_total ref g (record s { method = method }) p v,
      ),
    )
