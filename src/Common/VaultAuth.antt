-- ===== src/Common/VaultAuth.antt =====
-- common/common.go: finding the VaultAuth of a syncable resource, and its VaultConnection.
pub mod Allowed
mod Connection
mod Examples
use vault_secrets_operator.Base.{
  ℕ, String, Bool, Option, none, some, List, [], ◌∷◌, ◌==◌, ◌&&◌, not, text_key, nat_eq,
  if◌then◌else◌, length,
}
use vault_secrets_operator.Base.Result.{Result, ok, err, ◌>>=◌, ◌>>◌, fail_if}
use vault_secrets_operator.Api.Names.{ObjectKey}
use vault_secrets_operator.Api.Secret.{ApiError}
use vault_secrets_operator.Api.Syncable.{Object, meta_of}
use vault_secrets_operator.Api.VaultAuth.{VaultAuth, VaultAuthGlobal}
use vault_secrets_operator.Common.Errors.{
  Error, api, namespace_not_allowed, no_operator_namespace, object_not_found, storage_encryption,
  no_storage_encryption,
}
use vault_secrets_operator.Common.Metadata.{get_auth_ref_namespaced_name}
use vault_secrets_operator.Common.Merge.{merge_in_vault_auth_global}
use vault_secrets_operator.Common.Refs.{name_default, parse_resource_ref, is_allowed_namespace}

module _ (operator_namespace : String) where
  unfoldable pub set_vault_connection_ref : VaultAuth → VaultAuth
  set_vault_connection_ref a =
      if a.key.namespace == operator_namespace
        && (a.key.name == name_default && a.spec.vault_connection_ref == "")
      then record a { spec = record (a.spec) { vault_connection_ref = name_default } }
      else a

  unfoldable pub get_connection_namespaced_name : VaultAuth → Result Error ObjectKey
  get_connection_namespaced_name a =
      if a.spec.vault_connection_ref == "" && operator_namespace == ""
      then err no_operator_namespace
      else parse_resource_ref operator_namespace a.spec.vault_connection_ref a.key.namespace

  -- The loop over the items of the list.
  find_by_uid : String → ℕ → List VaultAuth → Result Error VaultAuth
  find_by_uid uid generation [] = err object_not_found
  find_by_uid uid generation (a ∷ rest) =
      if a.uid == uid && nat_eq a.generation generation
      then ok (set_vault_connection_ref a)
      else find_by_uid uid generation rest

  -- `list` is the client's List, of one namespace or, without a name, of all.
  unfoldable pub find_vault_auth_by_uid :
      (Option String → Result ApiError (List VaultAuth))
      → String
      → String
      → ℕ
      → Result Error VaultAuth
  unfolding find_by_uid
  find_vault_auth_by_uid list namespace uid generation =
      elim (list (if namespace == "" then none else some namespace)) [
        | ok items ↦ find_by_uid uid generation items
        | err e ↦ err (api e)
      ]

  -- `listed` is the client's List of the VaultAuths in the operator's namespace whose label
  -- cacheStorageEncryption is "true".
  unfoldable pub find_vault_auth_for_storage_encryption :
      Result ApiError (List VaultAuth) → Result Error VaultAuth
  find_vault_auth_for_storage_encryption (err e) = err (api e)
  find_vault_auth_for_storage_encryption (ok []) = err (storage_encryption 0)
  find_vault_auth_for_storage_encryption (ok (a ∷ [])) = elim a.spec.storage_encryption [
    | none ↦ err (no_storage_encryption a.key)
    | some _ ↦ ok a
  ]
  find_vault_auth_for_storage_encryption (ok items) = err (storage_encryption (length items))

  -- `get_auth` is the last answer of the client's Get, which getWithRetry repeats while the
  -- VaultAuth is not found.
  module _ (get_auth : ObjectKey → Result ApiError VaultAuth)
      (get_global : ObjectKey → Result ApiError VaultAuthGlobal) where
    unfoldable pub get_vault_auth_with_retry : ObjectKey → Result Error VaultAuth
    get_vault_auth_with_retry key = elim (get_auth key) [
      | ok a ↦ ok (set_vault_connection_ref a)
      | err e ↦ err (api e)
    ]

    unfoldable pub get_vault_auth_namespaced : Option Bool → Object → Result Error VaultAuth
    get_vault_auth_namespaced opts obj = do
      ref ← get_auth_ref_namespaced_name operator_namespace obj
      auth ← get_vault_auth_with_retry ref
      fail_if
          (not (
            is_allowed_namespace operator_namespace auth.key (meta_of obj).key.namespace
              auth.spec.allowed_namespaces))
          (namespace_not_allowed (meta_of obj).key.namespace ref)
      (merged, _) ← merge_in_vault_auth_global operator_namespace get_global opts auth
      ok merged
