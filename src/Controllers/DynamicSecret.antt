-- ===== src/Controllers/DynamicSecret.antt =====
-- controllers/vaultdynamicsecret_controller.go: the state that VaultDynamicSecretReconciler changes,
-- and its calls of the Kubernetes API for the resource itself.
pub mod Creds
pub mod Window
pub mod Requests
pub mod Rotation
pub mod SyncSecret
pub mod Reconcile
pub mod Deletion
pub mod Callback
use vault_secrets_operator.Base.{
  ℕ, String, Bool, true, false, not, ◌&&◌, Option, none, some, List, [], ◌∷◌, ◌++◌, ◌==◌, text_key,
  if◌then◌else◌, contains,
}
use vault_secrets_operator.Base.Map
use vault_secrets_operator.Base.Map.{Map}
use vault_secrets_operator.Base.Result.{Result, ok, err}
use vault_secrets_operator.Api.Names.{ObjectKey, object_key}
use vault_secrets_operator.Api.Secret.{Bytes, ApiError, not_found}
use vault_secrets_operator.Api.Syncable.{Object}
use vault_secrets_operator.Api.DynamicSecret.{DynamicSecret}
use vault_secrets_operator.Kube.Client.{Client}
use vault_secrets_operator.Common.Errors.{Error, api}
use vault_secrets_operator.Helpers.Filter.{SecretTransformationOption}
use vault_secrets_operator.Helpers.Hmac.{HmacValidator}
use vault_secrets_operator.Vault.Client.{Factory}
use vault_secrets_operator.Vault.Responses.{Value}
use vault_secrets_operator.Controllers.Horizon.{Duration}
use vault_secrets_operator.Controllers.BackOff
use vault_secrets_operator.Controllers.Registry.{SyncRegistry}
use vault_secrets_operator.Controllers.References.{RefCache}
use vault_secrets_operator.Controllers.Reconciler.{Reconciler}

-- vaultDynamicSecretFinalizer
abbrev pub finalizer : String
finalizer = "vaultdynamicsecret.secrets.hashicorp.com/finalizer"

module _ (r : Reconciler) where
  open r use {client, factory, RetryState, runtime_pod_uid}

  -- The error with which the Kubernetes API would answer a call for the resource, if any.
  pub record Faults : Type 0 where
    pub read : Option ApiError
    pub status_update : Option ApiError
    pub update : Option ApiError

  -- What a reconciliation reads and changes; `events` and `restarts` grow at their heads.
  pub record World : Type 0 where
    pub objects : Map ObjectKey DynamicSecret
    pub cluster : client.Cluster
    pub vault : factory.Vault
    pub sync_registry : SyncRegistry
    pub back_offs : Map ObjectKey RetryState
    pub references : RefCache
    pub restarts : List ObjectKey
    pub events : List String
    pub faults : Faults

  -- Recorder.Eventf, of which the reason is kept.
  unfoldable pub event : String → World → World
  event reason w = record w { events = reason ∷ w.events }

  -- r.Client.Get for the resource.
  unfoldable pub get_object : ObjectKey → World → Result ApiError DynamicSecret
  get_object key w = elim w.faults.read [
    | some e ↦ err e
    | none ↦ elim (Map.get key w.objects) [ some o ↦ ok o | none ↦ err not_found ]
  ]

  -- r.Status().Update: the server keeps its own spec and metadata, and the result is read back.
  unfoldable pub status_update : DynamicSecret → World → World × Result ApiError DynamicSecret
  status_update o w = elim w.faults.status_update [
    | some e ↦ (w, err e)
    | none ↦ elim (Map.get o.meta.key w.objects) [
      | none ↦ (w, err not_found)
      | some old ↦
          let new = record old {
            status = o.status;
            common = record (old.common) { secret_mac = o.common.secret_mac };
          } in
          (record w { objects = Map.put o.meta.key new w.objects }, ok new)
    ]
  ]

  -- c.Update with other finalizers, which leaves the status alone.
  unfoldable pub update_finalizers :
      DynamicSecret → List String → World → World × Result ApiError DynamicSecret
  update_finalizers o finalizers w = elim w.faults.update [
    | some e ↦ (w, err e)
    | none ↦ elim (Map.get o.meta.key w.objects) [
      | none ↦ (w, err not_found)
      | some old ↦
          let new = record old { finalizers = finalizers } in
          (record w { objects = Map.put o.meta.key new w.objects }, ok new)
    ]
  ]

  -- maybeAddFinalizer; the resource is what the caller has of it afterwards.
  unfoldable pub maybe_add_finalizer : DynamicSecret → World → World × Result Error DynamicSecret
  maybe_add_finalizer o w =
      if not o.deleting && not (contains finalizer o.finalizers)
      then (let (w', updated) = update_finalizers o (o.finalizers ++ (finalizer ∷ [])) w in
          elim updated [ ok new ↦ (w', ok new) | err e ↦ (w', err (api e)) ])
      else (w, ok o)

  -- The status that updateStatus writes.
  unfoldable pub stamped : DynamicSecret → DynamicSecret
  stamped o = record o {
    status = record (o.status) {
      last_runtime_pod_uid =
          if runtime_pod_uid == "" then o.status.last_runtime_pod_uid else runtime_pod_uid;
      last_generation = o.meta.generation;
    };
  }

  -- updateStatus: a status that is not written is an event, and no error.
  unfoldable pub update_status : DynamicSecret → World → World × Result Error DynamicSecret
  update_status o w =
      let (w', updated) = status_update (stamped o) w in
      elim updated [
        | ok new ↦ maybe_add_finalizer new w'
        | err _ ↦ maybe_add_finalizer (stamped o) (event "StatusUpdateError" w')
      ]
