-- ===== src/Controllers/PkiSecret/Deletion.antt =====
-- controllers/vaultpkisecret_controller.go: handleDeletion and the revocation of certificates.

use vault_secrets_operator.Base.{
  true, not, ◌&&◌, Option, none, some, [], ◌∷◌, text_key, if◌then◌else◌, contains,
}
use vault_secrets_operator.Base.Result.{ok, err}
use vault_secrets_operator.Api.PkiSecret.{PkiSecret, to_object, join}
use vault_secrets_operator.Common.Errors.{Error}
use vault_secrets_operator.Helpers.Sync.{sync_secret as write_destination}
use vault_secrets_operator.Vault.Responses.{text}
use vault_secrets_operator.Controllers.BackOff
use vault_secrets_operator.Controllers.Registry
use vault_secrets_operator.Controllers.References
use vault_secrets_operator.Controllers.References.{secret_transformation}
use vault_secrets_operator.Controllers.Reconciler.{Reconciler}
use vault_secrets_operator.Controllers.PkiSecret.{World, remove_finalizer, finalizer}

module _ (r : Reconciler) where
  open r use {client, factory, gvk, fresh, next}

  unfoldable pub revoke_certificate : PkiSecret → World r → World r × Option Error
  revoke_certificate o w =
      let (v, got) = factory.get_client (to_object o) w.vault in
      elim got [
        | err e ↦ (record w { vault = v }, some e)
        | ok c ↦
            let (v', answered) =
              factory.write c (join "/" (o.spec.mount ∷ "revoke" ∷ []))
                (("serial_number", text o.status.serial_number) ∷ []) v in
            (record w { vault = v' }, elim answered [ ok _ ↦ none | err e ↦ some e ])
      ]

  -- clearSecretData
  unfoldable pub clear_secret_data : PkiSecret → World r → World r
  clear_secret_data o w = record w {
    cluster = (write_destination client gvk true (to_object o) [] w.cluster).0;
  }

  -- finalizePKI, of which the error is only logged.
  unfoldable pub finalize_pki : PkiSecret → World r → World r
  finalize_pki o w =
      let (revoked, left) = revoke_certificate o w in
      let clear = λ (x : World r).
        if not o.common.destination.create && o.spec.clear then clear_secret_data o x else x in
      if o.spec.revoke then (elim left [ some _ ↦ revoked | none ↦ clear revoked ]) else clear w

  unfoldable pub handle_deletion : PkiSecret → World r → World r × Option Error
  handle_deletion o w =
      let forgotten = record w {
        sync_registry = (Registry.delete o.meta.key w.sync_registry).0;
        back_offs = (BackOff.delete fresh next o.meta.key w.back_offs).0;
        references = (References.remove secret_transformation o.meta.key w.references).0;
      } in
      let (w', left) = remove_finalizer r o forgotten in
      if contains finalizer o.finalizers
      then (elim left [ some e ↦ (w', some e) | none ↦ (finalize_pki o w', none) ])
      else (forgotten, none)
