-- ===== src/Controllers/DynamicSecret/Deletion.antt =====
-- controllers/vaultdynamicsecret_controller.go: handleDeletion and revokeLease.
use vault_secrets_operator.Base.{
  String, not, Option, none, some, [], ◌∷◌, ◌==◌, text_key, if◌then◌else◌, contains, select,
}
use vault_secrets_operator.Base.Map
use vault_secrets_operator.Base.Result.{ok, err}
use vault_secrets_operator.Api.Names.{object_key}
use vault_secrets_operator.Api.Secret.{ApiError, not_found}
use vault_secrets_operator.Api.DynamicSecret.{DynamicSecret, to_object}
use vault_secrets_operator.Common.Errors.{Error, api}
use vault_secrets_operator.Vault.Responses.{text}
use vault_secrets_operator.Controllers.BackOff
use vault_secrets_operator.Controllers.Registry
use vault_secrets_operator.Controllers.References
use vault_secrets_operator.Controllers.References.{secret_transformation}
use vault_secrets_operator.Controllers.Reconciler.{Reconciler}
use vault_secrets_operator.Controllers.DynamicSecret.{World, event, finalizer}

module _ (r : Reconciler) where
  open r use {factory, fresh, next}

  -- revokeLease: no error is returned, and both outcomes are events.
  unfoldable pub revoke_lease : DynamicSecret → String → World r → World r
  revoke_lease o id w =
      let lease_id = if id == "" then o.status.secret_lease.id else id in
      let (v, got) = factory.get_client (to_object o) w.vault in
      elim got [
        | err _ ↦ record w { vault = v }
        | ok c ↦
            let (v', _) =
              factory.write c "/sys/leases/revoke" (("lease_id", text lease_id) ∷ []) v in
            event r "SecretLeaseRevoke" (record w { vault = v' })
      ]

  -- r.Update without the finalizer: the server deletes the resource with its last one.
  unfoldable pub remove_finalizer : DynamicSecret → World r → World r × Option ApiError
  remove_finalizer o w = elim w.faults.update [
    | some e ↦ (w, some e)
    | none ↦ elim (Map.get o.meta.key w.objects) [
      | none ↦ (w, some not_found)
      | some old ↦ elim (select (λ f. not (f == finalizer)) o.finalizers) [
        | [] ↦ (record w { objects = Map.delete o.meta.key w.objects }, none)
        | f ∷ fs ↦ (
          record w { objects = Map.put o.meta.key (record old { finalizers = f ∷ fs }) w.objects },
          none,
        )
      ]
    ]
  ]

  -- What the reconciler holds for the resource.
  unfoldable pub forget : DynamicSecret → World r → World r
  forget o w = record w {
    sync_registry = (Registry.delete o.meta.key w.sync_registry).0;
    back_offs = (BackOff.delete fresh next o.meta.key w.back_offs).0;
    references = (References.remove secret_transformation o.meta.key w.references).0;
  }

  unfoldable pub handle_deletion : DynamicSecret → World r → World r × Option Error
  handle_deletion o w =
      let w' = forget o (revoke_lease o "" w) in
      if contains finalizer o.finalizers
      then (let (w2, left) = remove_finalizer o w' in
          (w2, elim left [ none ↦ none | some e ↦ some (api e) ]))
      else (w', none)
