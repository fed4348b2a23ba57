-- ===== src/Api/AuthConfig/Cloud.antt =====
-- The interface for the methods of cloud providers, AWS and GCP.
use vault_secrets_operator.Base.{◌≡◌, none, arith, eq_iff}
use vault_secrets_operator.Api.AuthConfig.{
  VaultAuthConfigAws, VaultAuthConfigGcp, validate_aws, validate_gcp, fill_aws, fill_gcp,
}
use vault_secrets_operator.Api.AuthConfig.Interface.{AuthConfig}

pub validate-fill_aws :
    (a b : VaultAuthConfigAws) → validate_aws a ≡ none → validate_aws (fill_aws a b) ≡ none
unfolding validate_aws fill_aws
validate-fill_aws a b h = ground (
  arith,
  eq_iff a.role "",
  eq_iff a.region "",
  eq_iff a.header_value "",
  eq_iff a.session_name "",
  eq_iff a.sts_endpoint "",
  eq_iff a.iam_endpoint "",
  eq_iff a.secret_ref "",
  eq_iff a.irsa_service_account "",
)

pub validate-fill_aws_other :
    (a b : VaultAuthConfigAws) → validate_aws b ≡ none → validate_aws (fill_aws a b) ≡ none
unfolding validate_aws fill_aws
validate-fill_aws_other a b h = ground (arith, eq_iff a.role "")

pub fill_aws_self : (a : VaultAuthConfigAws) → fill_aws a a ≡ a
unfolding fill_aws
fill_aws_self a = ground (
  arith,
  eq_iff a.role "",
  eq_iff a.region "",
  eq_iff a.header_value "",
  eq_iff a.session_name "",
  eq_iff a.sts_endpoint "",
  eq_iff a.iam_endpoint "",
  eq_iff a.secret_ref "",
  eq_iff a.irsa_service_account "",
)

pub fill_aws_assoc :
    (a b c : VaultAuthConfigAws) → fill_aws (fill_aws a b) c ≡ fill_aws a (fill_aws b c)
unfolding fill_aws
fill_aws_assoc a b c = ground (
  arith,
  eq_iff a.role "",
  eq_iff a.region "",
  eq_iff a.header_value "",
  eq_iff a.session_name "",
  eq_iff a.sts_endpoint "",
  eq_iff a.iam_endpoint "",
  eq_iff a.secret_ref "",
  eq_iff a.irsa_service_account "",
  eq_iff b.role "",
  eq_iff b.region "",
  eq_iff b.header_value "",
  eq_iff b.session_name "",
  eq_iff b.sts_endpoint "",
  eq_iff b.iam_endpoint "",
  eq_iff b.secret_ref "",
  eq_iff b.irsa_service_account "",
)

instance unfoldable pub aws_config : AuthConfig VaultAuthConfigAws
aws_config = record {
  validate = validate_aws;
  fill = fill_aws;
  validate_fill = validate-fill_aws;
  validate_fill_other = validate-fill_aws_other;
  fill_self = fill_aws_self;
  fill_assoc = fill_aws_assoc;
}

pub validate-fill_gcp :
    (a b : VaultAuthConfigGcp) → validate_gcp a ≡ none → validate_gcp (fill_gcp a b) ≡ none
unfolding validate_gcp fill_gcp
validate-fill_gcp a b h = ground (
  arith,
  eq_iff a.role "",
  eq_iff a.workload_identity_service_account "",
  eq_iff a.region "",
  eq_iff a.cluster_name "",
  eq_iff a.project_id "",
)

pub validate-fill_gcp_other :
    (a b : VaultAuthConfigGcp) → validate_gcp b ≡ none → validate_gcp (fill_gcp a b) ≡ none
unfolding validate_gcp fill_gcp
validate-fill_gcp_other a b h =
    ground (arith, eq_iff a.role "", eq_iff a.workload_identity_service_account "")

pub fill_gcp_self : (a : VaultAuthConfigGcp) → fill_gcp a a ≡ a
unfolding fill_gcp
fill_gcp_self a = ground (
  arith,
  eq_iff a.role "",
  eq_iff a.workload_identity_service_account "",
  eq_iff a.region "",
  eq_iff a.cluster_name "",
  eq_iff a.project_id "",
)

pub fill_gcp_assoc :
    (a b c : VaultAuthConfigGcp) → fill_gcp (fill_gcp a b) c ≡ fill_gcp a (fill_gcp b c)
unfolding fill_gcp
fill_gcp_assoc a b c = ground (
  arith,
  eq_iff a.role "",
  eq_iff a.workload_identity_service_account "",
  eq_iff a.region "",
  eq_iff a.cluster_name "",
  eq_iff a.project_id "",
  eq_iff b.role "",
  eq_iff b.workload_identity_service_account "",
  eq_iff b.region "",
  eq_iff b.cluster_name "",
  eq_iff b.project_id "",
)

instance unfoldable pub gcp_config : AuthConfig VaultAuthConfigGcp
gcp_config = record {
  validate = validate_gcp;
  fill = fill_gcp;
  validate_fill = validate-fill_gcp;
  validate_fill_other = validate-fill_gcp_other;
  fill_self = fill_gcp_self;
  fill_assoc = fill_gcp_assoc;
}
