-- ===== src/Common/Merge/Config.antt =====
-- common/common.go, MergeInVaultAuthGlobal: the auth method and its configuration.
pub mod Combined
pub mod Filled
use vault_secrets_operator.Base.{
  String, Bool, Option, none, some, [], ◌==◌, text_key, if◌then◌else◌,
}
use vault_secrets_operator.Base.Map.{Map}
use vault_secrets_operator.Base.Result.{Result, ok, err, ◌>>=◌}
use vault_secrets_operator.Api.Names.{ObjectKey}
use vault_secrets_operator.Api.AuthConfig.Merge.{
  AuthConfig, merge, kubernetes_config, jwt_config, app_role_config, aws_config, gcp_config,
}
use vault_secrets_operator.Api.VaultAuth.{VaultAuthSpec, VaultAuthGlobalSpec, VaultAuthGlobalConfig}
use vault_secrets_operator.Common.Errors.{
  Error, invalid_merge, no_auth_method, not_configured, validation, unsupported_auth_method,
}

-- credentials/vault/consts: ProviderMethodKubernetes and the other names of methods.
pub data ProviderMethod : Type 0 where
  kubernetes jwt app_role aws gcp : ProviderMethod

unfoldable pub provider_method : String → Option ProviderMethod
provider_method s =
    if s == "kubernetes"
    then some kubernetes
    else if s == "jwt"
    then some jwt
    else if s == "appRole"
    then some app_role
    else if s == "aws"
    then some aws
    else if s == "gcp"
    then some gcp
    else none

-- globalAuthMount, globalAuthNamespace, globalAuthParams and globalAuthHeaders.
pub record MethodDefaults : Type 0 where
  pub mount : String
  pub namespace : String
  pub params : Map String String
  pub headers : Map String String

abbrev pub no_defaults : MethodDefaults
no_defaults = record { mount = ""; namespace = ""; params = []; headers = [] }

abbrev pub defaults_of : {C : Type 0} → VaultAuthGlobalConfig C → MethodDefaults
defaults_of g = record {
  mount = g.mount;
  namespace = g.namespace;
  params = g.params;
  headers = g.headers;
}

-- One case of the switch: `missing` is its error where neither side is configured, `failed` what
-- it makes of an error of Merge. Validate runs on the outcome in both cases.
module _ {C : Type 0} ⦃e : AuthConfig C⦄ (missing : Error) (failed : String → Error) where
  unfoldable pub validated : C → VaultAuthGlobalConfig C → Result Error (Option C × MethodDefaults)
  validated c g = elim (e.validate c) [
    | none ↦ ok (some c, defaults_of g)
    | some x ↦ err (invalid_merge (validation x))
  ]

  unfoldable pub merge_config :
      Option C → Option (VaultAuthGlobalConfig C) → Result Error (Option C × MethodDefaults)
  unfolding validated
  merge_config none none = err missing
  merge_config (some c) none = ok (some c, no_defaults)
  merge_config none (some g) = validated g.config g
  merge_config (some c) (some g) = elim (merge c g.config) [
    | ok merged ↦ validated merged g
    | err x ↦ err (failed x)
  ]

-- The spec's Method, or the default one of the VaultAuthGlobal.
unfoldable pub merge_method :
    ObjectKey → ObjectKey → VaultAuthGlobalSpec → VaultAuthSpec → Result Error String
merge_method o ref g spec =
    if spec.method == ""
    then if g.default_auth_method == ""
      then err (invalid_merge (no_auth_method o ref))
      else ok g.default_auth_method
    else ok spec.method

abbrev wrapped : String → Error
wrapped x = invalid_merge (validation x)

-- The cases. Those of AWS and GCP do not wrap every error.
unfoldable pub merge_kubernetes :
    ObjectKey → VaultAuthGlobalSpec → VaultAuthSpec → Result Error (VaultAuthSpec × MethodDefaults)
merge_kubernetes ref g spec = do
  (c, d) ←
      merge_config (invalid_merge (not_configured spec.method ref)) wrapped spec.kubernetes
        g.kubernetes
  ok (record spec { kubernetes = c }, d)

unfoldable pub merge_jwt :
    ObjectKey → VaultAuthGlobalSpec → VaultAuthSpec → Result Error (VaultAuthSpec × MethodDefaults)
merge_jwt ref g spec = do
  (c, d) ← merge_config (invalid_merge (not_configured spec.method ref)) wrapped spec.jwt g.jwt
  ok (record spec { jwt = c }, d)

unfoldable pub merge_app_role :
    ObjectKey → VaultAuthGlobalSpec → VaultAuthSpec → Result Error (VaultAuthSpec × MethodDefaults)
merge_app_role ref g spec = do
  (c, d) ←
      merge_config (invalid_merge (not_configured spec.method ref)) wrapped spec.app_role g.app_role
  ok (record spec { app_role = c }, d)

unfoldable pub merge_aws :
    ObjectKey → VaultAuthGlobalSpec → VaultAuthSpec → Result Error (VaultAuthSpec × MethodDefaults)
merge_aws ref g spec = do
  (c, d) ← merge_config (not_configured spec.method ref) validation spec.aws g.aws
  ok (record spec { aws = c }, d)

unfoldable pub merge_gcp :
    ObjectKey → VaultAuthGlobalSpec → VaultAuthSpec → Result Error (VaultAuthSpec × MethodDefaults)
merge_gcp ref g spec = do
  (c, d) ← merge_config (invalid_merge (not_configured spec.method ref)) validation spec.gcp g.gcp
  ok (record spec { gcp = c }, d)

-- `switch cObj.Spec.Method`
unfoldable pub merge_provider :
    ObjectKey
    → VaultAuthGlobalSpec
    → VaultAuthSpec
    → Option ProviderMethod
    → Result Error (VaultAuthSpec × MethodDefaults)
merge_provider ref g spec (some kubernetes) = merge_kubernetes ref g spec
merge_provider ref g spec (some jwt) = merge_jwt ref g spec
merge_provider ref g spec (some app_role) = merge_app_role ref g spec
merge_provider ref g spec (some aws) = merge_aws ref g spec
merge_provider ref g spec (some gcp) = merge_gcp ref g spec
merge_provider ref g spec none = err (invalid_merge (unsupported_auth_method spec.method))
