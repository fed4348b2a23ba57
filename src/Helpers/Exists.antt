-- ===== src/Helpers/Exists.antt =====
-- helpers/secrets.go: reading, storing and deleting a Secret.
pub mod Store
mod Examples
use vault_secrets_operator.Base.{
  ℕ, suc, String, Bool, true, false, Option, none, some, if◌then◌else◌, is_some,
}
use vault_secrets_operator.Base.Result.{Result, ok, err}
use vault_secrets_operator.Api.Names.{ObjectKey}
use vault_secrets_operator.Api.Secret.{
  Secret, ApiError, not_found, already_exists, failure, is_not_found, is_already_exists,
}
use vault_secrets_operator.Api.Syncable.{Object, meta_of}
use vault_secrets_operator.Kube.Client.{Client}
use vault_secrets_operator.Common.Errors.{Error, api}
use vault_secrets_operator.Common.Metadata.{new_syncable_secret_meta_data}

module _ (k : Client) where
  open k use {Cluster, get, create, delete}

  unfoldable pub get_secret_exists : ObjectKey → Cluster → Result Error (Option Secret)
  get_secret_exists key c = elim (get key c) [
    | ok s ↦ ok (some s)
    | err e ↦ if is_not_found e then ok none else err (api e)
  ]

  unfoldable pub get_secret_exists_for_obj : Object → Cluster → Result Error (Option Secret)
  get_secret_exists_for_obj obj c = elim (new_syncable_secret_meta_data obj) [
    | err e ↦ err e
    | ok meta ↦
        get_secret_exists
          (record { namespace = (meta_of obj).key.namespace; name = meta.destination.name }) c
  ]

  unfoldable pub check_secret_exists : Object → Cluster → Result Error Bool
  check_secret_exists obj c = elim (get_secret_exists_for_obj obj c) [
    | err e ↦ err e
    | ok found ↦ ok (is_some found)
  ]

  -- Deleting what is not there is no error.
  unfoldable pub delete_secret : ObjectKey → Cluster → Cluster × Option ApiError
  delete_secret key c =
      let (d, r) = delete key c in
      elim r [ none ↦ (d, none) | some e ↦ if is_not_found e then (d, none) else (d, some e) ]

  unfoldable pub create_once : Secret → Cluster → Cluster × Option ApiError
  create_once dest c =
      let (d, r) = create dest c in elim r [ ok _ ↦ (d, none) | err e ↦ (d, some e) ]

  -- `retry` is backoff.Retry with at most five retries.
  module _
      (retry : (Cluster → Cluster × Option ApiError) → Cluster → Cluster × Option ApiError) where
    -- The Secret is created, or deleted and created again.
    unfoldable pub store_immutable_secret : Secret → Cluster → Cluster × Option ApiError
    store_immutable_secret dest c =
        let (d, r) = create dest c in
        elim r [
          | ok _ ↦ (d, none)
          | err e ↦
              if is_already_exists e
              then (let (f, s) = delete_secret dest.key d in
                  elim s [ some x ↦ (f, some x) | none ↦ retry (create_once dest) f ])
              else (d, some e)
        ]
