-- ===== src/Api/VaultAuth.antt =====
-- api/v1beta1/vaultauth_types.go and vaultauthglobal_types.go: the two resources that say how to
-- authenticate to Vault.
use vault_secrets_operator.Base.{ℕ, String, Bool, Option, List}
use vault_secrets_operator.Base.Map.{Map}
use vault_secrets_operator.Api.Names.{ObjectKey}
use vault_secrets_operator.Api.AuthConfig.{
  VaultAuthConfigKubernetes, VaultAuthConfigJwt, VaultAuthConfigAppRole, VaultAuthConfigAws,
  VaultAuthConfigGcp,
}

pub record MergeStrategy : Type 0 where
  pub headers : String
  pub params : String

pub record VaultAuthGlobalRef : Type 0 where
  pub name : String
  pub namespace : String
  pub merge_strategy : Option MergeStrategy
  pub allow_default : Option Bool

pub record StorageEncryption : Type 0 where
  pub mount : String
  pub key_name : String

pub record VaultAuthSpec : Type 0 where
  pub vault_connection_ref : String
  pub vault_auth_global_ref : Option VaultAuthGlobalRef
  pub namespace : String
  pub allowed_namespaces : List String
  pub method : String
  pub mount : String
  pub params : Map String String
  pub headers : Map String String
  pub kubernetes : Option VaultAuthConfigKubernetes
  pub app_role : Option VaultAuthConfigAppRole
  pub jwt : Option VaultAuthConfigJwt
  pub aws : Option VaultAuthConfigAws
  pub gcp : Option VaultAuthConfigGcp
  pub storage_encryption : Option StorageEncryption

pub record VaultAuth : Type 0 where
  pub key : ObjectKey
  pub uid : String
  pub generation : ℕ
  pub labels : Map String String
  pub spec : VaultAuthSpec

-- VaultAuthGlobalConfigKubernetes and its four copies: a method's configuration, inline, and what
-- the method sets of the VaultAuth's own fields.
pub record VaultAuthGlobalConfig (C : Type 0) : Type 0 where
  pub config : C
  pub namespace : String
  pub mount : String
  pub params : Map String String
  pub headers : Map String String

pub record VaultAuthGlobalSpec : Type 0 where
  pub allowed_namespaces : List String
  pub vault_connection_ref : String
  pub default_vault_namespace : String
  pub default_auth_method : String
  pub default_mount : String
  pub default_params : Map String String
  pub default_headers : Map String String
  pub kubernetes : Option (VaultAuthGlobalConfig VaultAuthConfigKubernetes)
  pub app_role : Option (VaultAuthGlobalConfig VaultAuthConfigAppRole)
  pub jwt : Option (VaultAuthGlobalConfig VaultAuthConfigJwt)
  pub aws : Option (VaultAuthGlobalConfig VaultAuthConfigAws)
  pub gcp : Option (VaultAuthGlobalConfig VaultAuthConfigGcp)

pub record VaultAuthGlobal : Type 0 where
  pub key : ObjectKey
  pub spec : VaultAuthGlobalSpec
