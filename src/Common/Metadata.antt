-- ===== src/Common/Metadata.antt =====
-- common/common.go: what a syncable resource says of itself, whatever its kind.
use vault_secrets_operator.Base.{String}
use vault_secrets_operator.Base.Result.{Result, ok, err, ◌>>=◌}
use vault_secrets_operator.Api.Names.{ObjectKey}
use vault_secrets_operator.Api.Destination.{Destination}
use vault_secrets_operator.Api.Syncable.{
  Meta, Object, VaultSpec, vault_dynamic_secret, vault_static_secret, vault_pki_secret,
  hcp_vault_secrets_app, meta_of,
}
use vault_secrets_operator.Common.Errors.{Error, unsupported_type}
use vault_secrets_operator.Common.Refs.{parse_resource_ref}

-- The namespace and the name are those of `key`.
pub record SyncableSecretMetaData : Type 0 where
  pub api_version : String
  pub kind : String
  pub key : ObjectKey
  pub destination : Destination
  pub auth_ref : String

of_vault : Meta → VaultSpec → SyncableSecretMetaData
of_vault m s = record {
  api_version = m.api_version;
  kind = m.kind;
  key = m.key;
  destination = s.destination;
  auth_ref = s.vault_auth_ref;
}

unfoldable pub new_syncable_secret_meta_data : Object → Result Error SyncableSecretMetaData
unfolding of_vault
new_syncable_secret_meta_data (vault_dynamic_secret m s) = ok (of_vault m s)
new_syncable_secret_meta_data (vault_static_secret m s) = ok (of_vault m s)
new_syncable_secret_meta_data (vault_pki_secret m s) = ok (of_vault m s)
new_syncable_secret_meta_data (hcp_vault_secrets_app m s) = ok (record {
  api_version = m.api_version;
  kind = m.kind;
  key = m.key;
  destination = s.destination;
  auth_ref = s.hcp_auth_ref;
})
new_syncable_secret_meta_data _ = err unsupported_type

unfoldable pub get_vault_namespace : Object → Result Error String
get_vault_namespace (vault_pki_secret m s) = ok s.namespace
get_vault_namespace (vault_static_secret m s) = ok s.namespace
get_vault_namespace (vault_dynamic_secret m s) = ok s.namespace
get_vault_namespace _ = err unsupported_type

unfoldable pub get_auth_ref_namespaced_name : String → Object → Result Error ObjectKey
get_auth_ref_namespaced_name operator_namespace obj = do
  m ← new_syncable_secret_meta_data obj
  parse_resource_ref operator_namespace m.auth_ref (meta_of obj).key.namespace
