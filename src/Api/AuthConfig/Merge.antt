-- ===== src/Api/AuthConfig/Merge.antt =====
-- The interface for the methods Kubernetes, JWT and AppRole, with those of the cloud providers.
use vault_secrets_operator.Base.{◌≡◌, none, arith, eq_iff}
use vault_secrets_operator.Api.AuthConfig.{
  VaultAuthConfigKubernetes, VaultAuthConfigJwt, VaultAuthConfigAppRole, validate_kubernetes,
  validate_jwt, validate_app_role, fill_kubernetes, fill_jwt, fill_app_role,
}
use vault_secrets_operator.Api.AuthConfig.Interface.{list_or_self, list_or_assoc}
pub use vault_secrets_operator.Api.AuthConfig.Interface.{AuthConfig}
unfoldable pub use vault_secrets_operator.Api.AuthConfig.Interface.{merge}
unfoldable pub use vault_secrets_operator.Api.AuthConfig.Cloud.{aws_config, gcp_config}

pub validate-fill_kubernetes :
    (a b : VaultAuthConfigKubernetes)
    → validate_kubernetes a ≡ none
    → validate_kubernetes (fill_kubernetes a b) ≡ none
unfolding validate_kubernetes fill_kubernetes
validate-fill_kubernetes a b h = ground (arith, eq_iff a.role "", eq_iff a.service_account "")

pub validate-fill_kubernetes_other :
    (a b : VaultAuthConfigKubernetes)
    → validate_kubernetes b ≡ none
    → validate_kubernetes (fill_kubernetes a b) ≡ none
unfolding validate_kubernetes fill_kubernetes
validate-fill_kubernetes_other a b h = ground (arith, eq_iff a.role "", eq_iff a.service_account "")

pub fill_kubernetes_self : (a : VaultAuthConfigKubernetes) → fill_kubernetes a a ≡ a
unfolding fill_kubernetes
fill_kubernetes_self a =
    ground (arith, eq_iff a.role "", eq_iff a.service_account "", list_or_self a.token_audiences)

pub fill_kubernetes_assoc :
    (a b c : VaultAuthConfigKubernetes)
    → fill_kubernetes (fill_kubernetes a b) c ≡ fill_kubernetes a (fill_kubernetes b c)
unfolding fill_kubernetes
fill_kubernetes_assoc a b c = ground (
  arith,
  eq_iff a.role "",
  eq_iff a.service_account "",
  eq_iff b.role "",
  eq_iff b.service_account "",
  list_or_assoc a.token_audiences b.token_audiences c.token_audiences,
)

instance unfoldable pub kubernetes_config : AuthConfig VaultAuthConfigKubernetes
kubernetes_config = record {
  validate = validate_kubernetes;
  fill = fill_kubernetes;
  validate_fill = validate-fill_kubernetes;
  validate_fill_other = validate-fill_kubernetes_other;
  fill_self = fill_kubernetes_self;
  fill_assoc = fill_kubernetes_assoc;
}

pub validate-fill_jwt :
    (a b : VaultAuthConfigJwt) → validate_jwt a ≡ none → validate_jwt (fill_jwt a b) ≡ none
unfolding validate_jwt fill_jwt
validate-fill_jwt a b h =
    ground (arith, eq_iff a.role "", eq_iff a.secret_ref "", eq_iff a.service_account "")

pub validate-fill_jwt_other :
    (a b : VaultAuthConfigJwt) → validate_jwt b ≡ none → validate_jwt (fill_jwt a b) ≡ none
unfolding validate_jwt fill_jwt
validate-fill_jwt_other a b h = ground (arith, eq_iff a.role "")

pub fill_jwt_self : (a : VaultAuthConfigJwt) → fill_jwt a a ≡ a
unfolding fill_jwt
fill_jwt_self a = ground (
  arith,
  eq_iff a.role "",
  eq_iff a.secret_ref "",
  eq_iff a.service_account "",
  list_or_self a.token_audiences,
)

pub fill_jwt_assoc :
    (a b c : VaultAuthConfigJwt) → fill_jwt (fill_jwt a b) c ≡ fill_jwt a (fill_jwt b c)
unfolding fill_jwt
fill_jwt_assoc a b c = ground (
  arith,
  eq_iff a.role "",
  eq_iff a.secret_ref "",
  eq_iff a.service_account "",
  eq_iff b.role "",
  eq_iff b.secret_ref "",
  eq_iff b.service_account "",
  list_or_assoc a.token_audiences b.token_audiences c.token_audiences,
)

instance unfoldable pub jwt_config : AuthConfig VaultAuthConfigJwt
jwt_config = record {
  validate = validate_jwt;
  fill = fill_jwt;
  validate_fill = validate-fill_jwt;
  validate_fill_other = validate-fill_jwt_other;
  fill_self = fill_jwt_self;
  fill_assoc = fill_jwt_assoc;
}

pub validate-fill_app_role :
    (a b : VaultAuthConfigAppRole)
    → validate_app_role a ≡ none
    → validate_app_role (fill_app_role a b) ≡ none
unfolding validate_app_role fill_app_role
validate-fill_app_role a b h = ground (arith, eq_iff a.role_id "", eq_iff a.secret_ref "")

pub validate-fill_app_role_other :
    (a b : VaultAuthConfigAppRole)
    → validate_app_role b ≡ none
    → validate_app_role (fill_app_role a b) ≡ none
unfolding validate_app_role fill_app_role
validate-fill_app_role_other a b h = ground (arith, eq_iff a.role_id "", eq_iff a.secret_ref "")

pub fill_app_role_self : (a : VaultAuthConfigAppRole) → fill_app_role a a ≡ a
unfolding fill_app_role
fill_app_role_self a = ground (arith, eq_iff a.role_id "", eq_iff a.secret_ref "")

pub fill_app_role_assoc :
    (a b c : VaultAuthConfigAppRole)
    → fill_app_role (fill_app_role a b) c ≡ fill_app_role a (fill_app_role b c)
unfolding fill_app_role
fill_app_role_assoc a b c = ground (
  arith,
  eq_iff a.role_id "",
  eq_iff a.secret_ref "",
  eq_iff b.role_id "",
  eq_iff b.secret_ref "",
)

instance unfoldable pub app_role_config : AuthConfig VaultAuthConfigAppRole
app_role_config = record {
  validate = validate_app_role;
  fill = fill_app_role;
  validate_fill = validate-fill_app_role;
  validate_fill_other = validate-fill_app_role_other;
  fill_self = fill_app_role_self;
  fill_assoc = fill_app_role_assoc;
}
