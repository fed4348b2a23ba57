-- ===== src/Api/AuthConfig.antt =====
-- api/v1beta1/vaultauth_types.go: the configuration of each auth method, its validation and the
-- merge of two of them.
pub mod Interface
pub mod Cloud
pub mod Merge
use vault_secrets_operator.Base.{
  ℕ, ◌≡◌, ◌↔◌, ◌⊎◌, refl, String, Bool, true, false, ◌&&◌, ◌||◌, not, Option, none, some, List, [],
  ◌∷◌, arith, ◌==◌, text_key, nat_eq, if◌then◌else◌,
}

pub record VaultAuthConfigKubernetes : Type 0 where
  pub role : String
  pub service_account : String
  pub token_audiences : List String
  pub token_expiration_seconds : ℕ

pub record VaultAuthConfigJwt : Type 0 where
  pub role : String
  pub secret_ref : String
  pub service_account : String
  pub token_audiences : List String
  pub token_expiration_seconds : ℕ

pub record VaultAuthConfigAppRole : Type 0 where
  pub role_id : String
  pub secret_ref : String

pub record VaultAuthConfigAws : Type 0 where
  pub role : String
  pub region : String
  pub header_value : String
  pub session_name : String
  pub sts_endpoint : String
  pub iam_endpoint : String
  pub secret_ref : String
  pub irsa_service_account : String

pub record VaultAuthConfigGcp : Type 0 where
  pub role : String
  pub workload_identity_service_account : String
  pub region : String
  pub cluster_name : String
  pub project_id : String

-- `if c.F == "" { c.F = other.F }`, and the same for a list and for a number.
abbrev pub text_or : String → String → String
text_or a b = if a == "" then b else a

abbrev pub list_or : List String → List String → List String
list_or [] b = b
list_or a b = a

abbrev pub number_or : ℕ → ℕ → ℕ
number_or a b = if nat_eq a 0 then b else a

-- A second check that fails replaces the error of the first.
unfoldable pub validate_kubernetes : VaultAuthConfigKubernetes → Option String
validate_kubernetes a =
    if a.service_account == ""
    then some "empty serviceAccount"
    else if a.role == ""
    then some "empty role"
    else none

unfoldable pub validate_jwt : VaultAuthConfigJwt → Option String
validate_jwt a = if a.role == "" then some "empty role" else none

unfoldable pub validate_app_role : VaultAuthConfigAppRole → Option String
validate_app_role a =
    if a.secret_ref == ""
    then some "empty secretRef"
    else if a.role_id == ""
    then some "empty roleID"
    else none

unfoldable pub validate_aws : VaultAuthConfigAws → Option String
validate_aws a = if a.role == "" then some "empty role" else none

unfoldable pub validate_gcp : VaultAuthConfigGcp → Option String
validate_gcp a =
    if a.workload_identity_service_account == ""
    then some "empty workloadIdentityServiceAccount"
    else if a.role == ""
    then some "empty role"
    else none

unfoldable pub fill_kubernetes :
    VaultAuthConfigKubernetes → VaultAuthConfigKubernetes → VaultAuthConfigKubernetes
fill_kubernetes a other = record {
  role = text_or a.role other.role;
  service_account = text_or a.service_account other.service_account;
  token_audiences = list_or a.token_audiences other.token_audiences;
  token_expiration_seconds = number_or a.token_expiration_seconds other.token_expiration_seconds;
}

unfoldable pub fill_jwt : VaultAuthConfigJwt → VaultAuthConfigJwt → VaultAuthConfigJwt
fill_jwt a other = record {
  role = text_or a.role other.role;
  secret_ref = text_or a.secret_ref other.secret_ref;
  service_account = text_or a.service_account other.service_account;
  token_audiences = list_or a.token_audiences other.token_audiences;
  token_expiration_seconds = number_or a.token_expiration_seconds other.token_expiration_seconds;
}

unfoldable pub fill_app_role :
    VaultAuthConfigAppRole → VaultAuthConfigAppRole → VaultAuthConfigAppRole
fill_app_role a other = record {
  role_id = text_or a.role_id other.role_id;
  secret_ref = text_or a.secret_ref other.secret_ref;
}

unfoldable pub fill_aws : VaultAuthConfigAws → VaultAuthConfigAws → VaultAuthConfigAws
fill_aws a other = record {
  role = text_or a.role other.role;
  region = text_or a.region other.region;
  header_value = text_or a.header_value other.header_value;
  session_name = text_or a.session_name other.session_name;
  sts_endpoint = text_or a.sts_endpoint other.sts_endpoint;
  iam_endpoint = text_or a.iam_endpoint other.iam_endpoint;
  secret_ref = text_or a.secret_ref other.secret_ref;
  irsa_service_account = text_or a.irsa_service_account other.irsa_service_account;
}

unfoldable pub fill_gcp : VaultAuthConfigGcp → VaultAuthConfigGcp → VaultAuthConfigGcp
fill_gcp a other = record {
  role = text_or a.role other.role;
  workload_identity_service_account =
      text_or a.workload_identity_service_account other.workload_identity_service_account;
  region = text_or a.region other.region;
  cluster_name = text_or a.cluster_name other.cluster_name;
  project_id = text_or a.project_id other.project_id;
}
