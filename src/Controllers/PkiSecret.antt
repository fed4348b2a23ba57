-- ===== src/Controllers/PkiSecret.antt =====
-- controllers/vaultpkisecret_controller.go: the state that VaultPKISecretReconciler changes, and its
-- calls of the Kubernetes API for the resource itself.
pub mod Window
pub mod Tls
pub mod Stored
pub mod Deletion
pub mod Issue
pub mod Reconcile
use vault_secrets_operator.Base.{
  ℕ, String, Bool, true, false, not, ◌&&◌, Option, none, some, List, [], ◌∷◌, ◌++◌, ◌==◌, text_key,
  if◌then◌else◌, contains, select,
}
use vault_secrets_operator.Base.Map
use vault_secrets_operator.Base.Map.{Map}
use vault_secrets_operator.Base.Result.{Result, ok, err}
use vault_secrets_operator.Api.Names.{ObjectKey, object_key}
use vault_secrets_operator.Api.Secret.{ApiError, not_found}
use vault_secrets_operator.Api.PkiSecret.{PkiSecret}
use vault_secrets_operator.Common.Errors.{Error, api}
use vault_secrets_operator.Controllers.Reconciler.{Reconciler}
use vault_secrets_operator.Controllers.Registry.{SyncRegistry}
use vault_secrets_operator.Controllers.References.{RefCache}

-- vaultPKIFinalizer
abbrev pub finalizer : String
finalizer = "vaultpkisecrets.secrets.hashicorp.com/finalizer"

module _ (r : Reconciler) where
  open r use {client, factory, RetryState}

  -- The error with which the Kubernetes API would answer a call for the resource, if any.
  pub record Faults : Type 0 where
    pub read : Option ApiError
    pub status_update : Option ApiError
    pub update : Option ApiError

  -- What a reconciliation reads and changes; `events` and `restarts` grow at their heads.
  pub record World : Type 0 where
    pub objects : Map ObjectKey PkiSecret
    pub cluster : client.Cluster
    pub vault : factory.Vault
    pub sync_registry : SyncRegistry
    pub back_offs : Map ObjectKey RetryState
    pub references : RefCache
    pub restarts : List ObjectKey
    pub events : List String
    pub faults : Faults

  -- recordEvent, of which the reason is kept.
  unfoldable pub event : String → World → World
  event reason w = record w { events = reason ∷ w.events }

  -- r.Client.Get for the resource.
  unfoldable pub get_object : ObjectKey → World → Result ApiError PkiSecret
  get_object key w = elim w.faults.read [
    | some e ↦ err e
    | none ↦ elim (Map.get key w.objects) [ some o ↦ ok o | none ↦ err not_found ]
  ]

  -- r.Status().Update: the server keeps its own spec and metadata, and the result is read back.
  unfoldable pub status_update : PkiSecret → World → World × Result ApiError PkiSecret
  status_update o w = elim w.faults.status_update [
    | some e ↦ (w, err e)
    | none ↦ elim (Map.get o.meta.key w.objects) [
      | none ↦ (w, err not_found)
      | some old ↦
          let new = record old {
            status = o.status;
            common = record (old.common) { secret_mac = o.common.secret_mac };
          } in
          (record w { objects = Map.put o.meta.key new w.objects }, ok new)
    ]
  ]

  -- c.Update with other finalizers, which leaves the status alone; a resource that is being deleted
  -- goes with its last one.
  unfoldable pub update_finalizers :
      PkiSecret → List String → World → World × Result ApiError PkiSecret
  update_finalizers o finalizers w = elim w.faults.update [
    | some e ↦ (w, err e)
    | none ↦ elim (Map.get o.meta.key w.objects) [
      | none ↦ (w, err not_found)
      | some old ↦
          let new = record old { finalizers = finalizers } in
          let stored = record w { objects = Map.put o.meta.key new w.objects } in
          let gone = record w { objects = Map.delete o.meta.key w.objects } in
          (elim finalizers [ [] ↦ if old.deleting then gone else stored | _ ∷ _ ↦ stored ], ok new)
    ]
  ]

  -- maybeAddFinalizer; the resource is what the caller has of it afterwards.
  unfoldable pub maybe_add_finalizer : PkiSecret → World → World × Result Error PkiSecret
  maybe_add_finalizer o w =
      if not o.deleting && not (contains finalizer o.finalizers)
      then (let (w', updated) = update_finalizers o (o.finalizers ++ (finalizer ∷ [])) w in
          (w', elim updated [ ok new ↦ ok new | err e ↦ err (api e) ]))
      else (w, ok o)

  -- updateStatus: a status that is not written is an event and an error.
  unfoldable pub update_status : PkiSecret → World → World × Result Error PkiSecret
  update_status o w =
      let o' = record o { status = record (o.status) { last_generation = o.meta.generation } } in
      let (w', updated) = status_update o' w in
      elim updated [
        | ok new ↦ maybe_add_finalizer new w'
        | err e ↦ (event "StatusUpdateError" w', err (api e))
      ]

  -- The finalizer is removed in handleDeletion.
  unfoldable pub remove_finalizer : PkiSecret → World → World × Option Error
  remove_finalizer o w =
      let (w', updated) = update_finalizers o (select (λ f. not (f == finalizer)) o.finalizers) w in
      (w', elim updated [ ok _ ↦ none | err e ↦ some (api e) ])
