-- ===== src/Common/Merge/Config/Filled.antt =====
-- The configurations of the auth methods after a merge, field by field.
use mathlib.Core.Path.{subst}
use vault_secrets_operator.Base.{◌≡◌, refl, sym, Option, none, some}
use vault_secrets_operator.Api.AuthConfig.{
  VaultAuthConfigKubernetes, VaultAuthConfigJwt, VaultAuthConfigAppRole, VaultAuthConfigAws,
  VaultAuthConfigGcp, text_or, list_or, number_or, fill_kubernetes, fill_jwt, fill_app_role,
  fill_aws, fill_gcp,
}
use vault_secrets_operator.Api.AuthConfig.Merge.{
  AuthConfig, kubernetes_config, jwt_config, app_role_config, aws_config, gcp_config,
}
use vault_secrets_operator.Api.VaultAuth.{VaultAuthSpec, VaultAuthGlobalSpec, VaultAuthGlobalConfig}
use vault_secrets_operator.Common.Merge.Config.{ProviderMethod, kubernetes, jwt, app_role, aws, gcp}
use vault_secrets_operator.Common.Merge.Config.Combined.{combined, combined_spec}

-- In each of these, `a` is the VaultAuth's own configuration, `b` the VaultAuthGlobal's and `c` the
-- one that is used: a field of `a` that is set wins.
pub record FilledKubernetes (a b c : VaultAuthConfigKubernetes) : Type 0 where
  pub role : c.role ≡ text_or a.role b.role
  pub service_account : c.service_account ≡ text_or a.service_account b.service_account
  pub token_audiences : c.token_audiences ≡ list_or a.token_audiences b.token_audiences
  pub token_expiration_seconds :
      c.token_expiration_seconds ≡ number_or a.token_expiration_seconds b.token_expiration_seconds

pub record FilledJwt (a b c : VaultAuthConfigJwt) : Type 0 where
  pub role : c.role ≡ text_or a.role b.role
  pub secret_ref : c.secret_ref ≡ text_or a.secret_ref b.secret_ref
  pub service_account : c.service_account ≡ text_or a.service_account b.service_account
  pub token_audiences : c.token_audiences ≡ list_or a.token_audiences b.token_audiences
  pub token_expiration_seconds :
      c.token_expiration_seconds ≡ number_or a.token_expiration_seconds b.token_expiration_seconds

pub record FilledAppRole (a b c : VaultAuthConfigAppRole) : Type 0 where
  pub role_id : c.role_id ≡ text_or a.role_id b.role_id
  pub secret_ref : c.secret_ref ≡ text_or a.secret_ref b.secret_ref

pub record FilledAws (a b c : VaultAuthConfigAws) : Type 0 where
  pub role : c.role ≡ text_or a.role b.role
  pub region : c.region ≡ text_or a.region b.region
  pub header_value : c.header_value ≡ text_or a.header_value b.header_value
  pub session_name : c.session_name ≡ text_or a.session_name b.session_name
  pub sts_endpoint : c.sts_endpoint ≡ text_or a.sts_endpoint b.sts_endpoint
  pub iam_endpoint : c.iam_endpoint ≡ text_or a.iam_endpoint b.iam_endpoint
  pub secret_ref : c.secret_ref ≡ text_or a.secret_ref b.secret_ref
  pub irsa_service_account :
      c.irsa_service_account ≡ text_or a.irsa_service_account b.irsa_service_account

pub record FilledGcp (a b c : VaultAuthConfigGcp) : Type 0 where
  pub role : c.role ≡ text_or a.role b.role
  pub workload_identity_service_account :
      c.workload_identity_service_account
      ≡ text_or a.workload_identity_service_account b.workload_identity_service_account
  pub region : c.region ≡ text_or a.region b.region
  pub cluster_name : c.cluster_name ≡ text_or a.cluster_name b.cluster_name
  pub project_id : c.project_id ≡ text_or a.project_id b.project_id

-- The configuration that is used, where one side or both have one.
pub data IsCombined {C : Type 0} (Filled : C → C → C → Type 0)
    : Option C → Option (VaultAuthGlobalConfig C) → Option C → Type 0 where
  own : {c : Option C} → IsCombined Filled c none c
  global : {g : VaultAuthGlobalConfig C} → IsCombined Filled none (some g) (some g.config)
  both :
      {a c : C} {g : VaultAuthGlobalConfig C}
      → Filled a g.config c
      → IsCombined Filled (some a) (some g) (some c)

combined-IsCombined :
    {C : Type 0} ⦃e : AuthConfig C⦄ (Filled : C → C → C → Type 0)
    → ((a b : C) → Filled a b (e.fill a b))
    → (c : Option C) (g : Option (VaultAuthGlobalConfig C)) → IsCombined Filled c g (combined c g)
unfolding combined
combined-IsCombined Filled filled c none = own
combined-IsCombined Filled filled none (some g) = global
combined-IsCombined Filled filled (some a) (some g) = both (filled a g.config)

-- The configuration of the method is combined, and those of the others are the VaultAuth's own.
pub data IsConfigured (g : VaultAuthGlobalSpec) (s m : VaultAuthSpec)
    : ProviderMethod → Type 0 where
  kubernetes_used :
      IsCombined FilledKubernetes s.kubernetes g.kubernetes m.kubernetes
      → m.jwt ≡ s.jwt
      → m.app_role ≡ s.app_role
      → m.aws ≡ s.aws
      → m.gcp ≡ s.gcp
      → IsConfigured g s m kubernetes
  jwt_used :
      IsCombined FilledJwt s.jwt g.jwt m.jwt
      → m.kubernetes ≡ s.kubernetes
      → m.app_role ≡ s.app_role
      → m.aws ≡ s.aws
      → m.gcp ≡ s.gcp
      → IsConfigured g s m jwt
  app_role_used :
      IsCombined FilledAppRole s.app_role g.app_role m.app_role
      → m.kubernetes ≡ s.kubernetes
      → m.jwt ≡ s.jwt
      → m.aws ≡ s.aws
      → m.gcp ≡ s.gcp
      → IsConfigured g s m app_role
  aws_used :
      IsCombined FilledAws s.aws g.aws m.aws
      → m.kubernetes ≡ s.kubernetes
      → m.jwt ≡ s.jwt
      → m.app_role ≡ s.app_role
      → m.gcp ≡ s.gcp
      → IsConfigured g s m aws
  gcp_used :
      IsCombined FilledGcp s.gcp g.gcp m.gcp
      → m.kubernetes ≡ s.kubernetes
      → m.jwt ≡ s.jwt
      → m.app_role ≡ s.app_role
      → m.aws ≡ s.aws
      → IsConfigured g s m gcp

-- The configurations of the methods are the same.
pub record SameConfigs (a b : VaultAuthSpec) : Type 0 where
  pub kubernetes : a.kubernetes ≡ b.kubernetes
  pub jwt : a.jwt ≡ b.jwt
  pub app_role : a.app_role ≡ b.app_role
  pub aws : a.aws ≡ b.aws
  pub gcp : a.gcp ≡ b.gcp

pub combined_spec-IsConfigured :
    (g : VaultAuthGlobalSpec) (s m : VaultAuthSpec) (p : ProviderMethod)
    → SameConfigs m (combined_spec g s p)
    → IsConfigured g s m p
unfolding combined_spec fill_kubernetes fill_jwt fill_app_role fill_aws fill_gcp kubernetes_config
    jwt_config app_role_config aws_config gcp_config
combined_spec-IsConfigured g s m kubernetes e =
    kubernetes_used
      (subst (IsCombined FilledKubernetes s.kubernetes g.kubernetes) (sym e.kubernetes) (
        combined-IsCombined FilledKubernetes
          (λ a b. record {
            role = refl;
            service_account = refl;
            token_audiences = refl;
            token_expiration_seconds = refl;
          })
          s.kubernetes g.kubernetes))
      e.jwt e.app_role e.aws e.gcp
combined_spec-IsConfigured g s m jwt e =
    jwt_used
      (subst (IsCombined FilledJwt s.jwt g.jwt) (sym e.jwt) (
        combined-IsCombined FilledJwt
          (λ a b. record {
            role = refl;
            secret_ref = refl;
            service_account = refl;
            token_audiences = refl;
            token_expiration_seconds = refl;
          })
          s.jwt g.jwt))
      e.kubernetes e.app_role e.aws e.gcp
combined_spec-IsConfigured g s m app_role e =
    app_role_used
      (subst (IsCombined FilledAppRole s.app_role g.app_role) (sym e.app_role) (
        combined-IsCombined FilledAppRole (λ a b. record { role_id = refl; secret_ref = refl })
          s.app_role g.app_role))
      e.kubernetes e.jwt e.aws e.gcp
combined_spec-IsConfigured g s m aws e =
    aws_used
      (subst (IsCombined FilledAws s.aws g.aws) (sym e.aws) (
        combined-IsCombined FilledAws
          (λ a b. record {
            role = refl;
            region = refl;
            header_value = refl;
            session_name = refl;
            sts_endpoint = refl;
            iam_endpoint = refl;
            secret_ref = refl;
            irsa_service_account = refl;
          })
          s.aws g.aws))
      e.kubernetes e.jwt e.app_role e.gcp
combined_spec-IsConfigured g s m gcp e =
    gcp_used
      (subst (IsCombined FilledGcp s.gcp g.gcp) (sym e.gcp) (
        combined-IsCombined FilledGcp
          (λ a b. record {
            role = refl;
            workload_identity_service_account = refl;
            region = refl;
            cluster_name = refl;
            project_id = refl;
          })
          s.gcp g.gcp))
      e.kubernetes e.jwt e.app_role e.aws
