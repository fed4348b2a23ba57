-- ===== src/Common/Merge/Config/Combined.antt =====
-- What the switch over the auth methods makes of the two sides, written down method by method.
use vault_secrets_operator.Base.{◌≡◌, String, Bool, true, false, Option, none, some, arith, is_some}
use vault_secrets_operator.Base.Result.{ok}
use vault_secrets_operator.Api.Names.{ObjectKey}
use vault_secrets_operator.Api.AuthConfig.Merge.{
  AuthConfig, merge, kubernetes_config, jwt_config, app_role_config, aws_config, gcp_config,
}
use vault_secrets_operator.Api.VaultAuth.{VaultAuthSpec, VaultAuthGlobalSpec, VaultAuthGlobalConfig}
use vault_secrets_operator.Common.Errors.{Error, invalid_merge, not_configured, validation}
use vault_secrets_operator.Common.Merge.Config.{
  ProviderMethod, kubernetes, jwt, app_role, aws, gcp, MethodDefaults, no_defaults, defaults_of,
  merge_config, validated, merge_kubernetes, merge_jwt, merge_app_role, merge_aws, merge_gcp,
  merge_provider, wrapped,
}

module _ {C : Type 0} ⦃e : AuthConfig C⦄ where
  -- Field by field, the VaultAuth's own configuration before the VaultAuthGlobal's.
  unfoldable pub combined : Option C → Option (VaultAuthGlobalConfig C) → Option C
  combined own none = own
  combined none (some g) = some g.config
  combined (some c) (some g) = some (e.fill c g.config)

  unfoldable pub defaults : Option (VaultAuthGlobalConfig C) → MethodDefaults
  defaults none = no_defaults
  defaults (some g) = defaults_of g

  -- Validate accepts the configuration, where a VaultAuthGlobal had a part in it.
  unfoldable pub is_accepted : Option C → Option (VaultAuthGlobalConfig C) → Bool
  is_accepted c none = is_some c
  is_accepted none (some g) = false
  is_accepted (some c) (some g) = elim (e.validate c) [ none ↦ true | some _ ↦ false ]

  pub merge_config-combined :
      (missing : Error) (failed : String → Error) (own c : Option C)
      (g : Option (VaultAuthGlobalConfig C)) (d : MethodDefaults)
      → merge_config missing failed own g ≡ ok (c, d)
      → (c ≡ combined own g) × (d ≡ defaults g) × (is_accepted c g ≡ true)
  unfolding merge_config validated combined defaults is_accepted merge
  merge_config-combined missing failed none c none d h = ground arith
  merge_config-combined missing failed (some a) c none d h = ground arith
  merge_config-combined missing failed none c (some g) d h = ground arith
  merge_config-combined missing failed (some a) c (some g) d h = ground arith

  -- The VaultAuthGlobal has a configuration, which Validate accepts.
  unfoldable pub is_valid : Option (VaultAuthGlobalConfig C) → Bool
  is_valid none = false
  is_valid (some g) = elim (e.validate g.config) [ none ↦ true | some _ ↦ false ]

  pub merge_config_total :
      (missing : Error) (failed : String → Error) (own : Option C)
      (g : Option (VaultAuthGlobalConfig C))
      → is_valid g ≡ true
      → merge_config missing failed own g ≡ ok (combined own g, defaults g)
  unfolding merge_config validated combined defaults is_valid merge
  merge_config_total missing failed own none h = ground arith
  merge_config_total missing failed none (some g) h = ground arith
  merge_config_total missing failed (some a) (some g) h =
      ground (arith, e.validate_fill_other a g.config)

-- The spec with the configuration of one method combined.
unfoldable pub combined_spec : VaultAuthGlobalSpec → VaultAuthSpec → ProviderMethod → VaultAuthSpec
unfolding combined kubernetes_config jwt_config app_role_config aws_config gcp_config
combined_spec g s kubernetes = record s { kubernetes = combined s.kubernetes g.kubernetes }
combined_spec g s jwt = record s { jwt = combined s.jwt g.jwt }
combined_spec g s app_role = record s { app_role = combined s.app_role g.app_role }
combined_spec g s aws = record s { aws = combined s.aws g.aws }
combined_spec g s gcp = record s { gcp = combined s.gcp g.gcp }

unfoldable pub method_defaults : VaultAuthGlobalSpec → ProviderMethod → MethodDefaults
method_defaults g kubernetes = defaults g.kubernetes
method_defaults g jwt = defaults g.jwt
method_defaults g app_role = defaults g.app_role
method_defaults g aws = defaults g.aws
method_defaults g gcp = defaults g.gcp

unfoldable pub is_accepted_spec : VaultAuthGlobalSpec → VaultAuthSpec → ProviderMethod → Bool
is_accepted_spec g s kubernetes = is_accepted s.kubernetes g.kubernetes
is_accepted_spec g s jwt = is_accepted s.jwt g.jwt
is_accepted_spec g s app_role = is_accepted s.app_role g.app_role
is_accepted_spec g s aws = is_accepted s.aws g.aws
is_accepted_spec g s gcp = is_accepted s.gcp g.gcp

pub merge_provider-combined :
    (ref : ObjectKey) (g : VaultAuthGlobalSpec) (s m : VaultAuthSpec) (p : ProviderMethod)
    (d : MethodDefaults)
    → merge_provider ref g s (some p) ≡ ok (m, d)
    → (m ≡ combined_spec g s p) × (d ≡ method_defaults g p) × (is_accepted_spec g m p ≡ true)
unfolding merge_provider merge_kubernetes merge_jwt merge_app_role merge_aws merge_gcp combined_spec
    method_defaults is_accepted_spec
merge_provider-combined ref g s m kubernetes d h = ground (
  arith,
  merge_config-combined (invalid_merge (not_configured s.method ref)) wrapped s.kubernetes
      m.kubernetes g.kubernetes d,
)
merge_provider-combined ref g s m jwt d h = ground (
  arith,
  merge_config-combined (invalid_merge (not_configured s.method ref)) wrapped s.jwt m.jwt g.jwt d,
)
merge_provider-combined ref g s m app_role d h = ground (
  arith,
  merge_config-combined (invalid_merge (not_configured s.method ref)) wrapped s.app_role m.app_role
      g.app_role d,
)
merge_provider-combined ref g s m aws d h =
    ground
      (arith, merge_config-combined (not_configured s.method ref) validation s.aws m.aws g.aws d)
merge_provider-combined ref g s m gcp d h = ground (
  arith,
  merge_config-combined (invalid_merge (not_configured s.method ref)) validation s.gcp m.gcp g.gcp
      d,
)

unfoldable pub is_valid_spec : VaultAuthGlobalSpec → ProviderMethod → Bool
is_valid_spec g kubernetes = is_valid g.kubernetes
is_valid_spec g jwt = is_valid g.jwt
is_valid_spec g app_role = is_valid g.app_role
is_valid_spec g aws = is_valid g.aws
is_valid_spec g gcp = is_valid g.gcp

pub merge_provider_total :
    (ref : ObjectKey) (g : VaultAuthGlobalSpec) (s : VaultAuthSpec) (p : ProviderMethod)
    → is_valid_spec g p ≡ true
    → merge_provider ref g s (some p) ≡ ok (combined_spec g s p, method_defaults g p)
unfolding merge_provider merge_kubernetes merge_jwt merge_app_role merge_aws merge_gcp combined_spec
    method_defaults is_valid_spec
merge_provider_total ref g s kubernetes h = ground (
  arith,
  merge_config_total (invalid_merge (not_configured s.method ref)) wrapped s.kubernetes
      g.kubernetes,
)
merge_provider_total ref g s jwt h =
    ground
      (arith, merge_config_total (invalid_merge (not_configured s.method ref)) wrapped s.jwt g.jwt)
merge_provider_total ref g s app_role h = ground (
  arith,
  merge_config_total (invalid_merge (not_configured s.method ref)) wrapped s.app_role g.app_role,
)
merge_provider_total ref g s aws h =
    ground (arith, merge_config_total (not_configured s.method ref) validation s.aws g.aws)
merge_provider_total ref g s gcp h =
    ground (
      arith,
      merge_config_total (invalid_merge (not_configured s.method ref)) validation s.gcp g.gcp,
    )
