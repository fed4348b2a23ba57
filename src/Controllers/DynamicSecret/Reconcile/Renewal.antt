-- ===== src/Controllers/DynamicSecret/Reconcile/Renewal.antt =====
-- The renewal of a lease in place of a sync.
use vault_secrets_operator.Base.{
  ℕ, ◌*◌, ◌≤◌, ◌≡◌, ◌≢◌, true, false, text_key, nat_eq, if◌then◌else◌,
}
use vault_secrets_operator.Base.Result.{err}
use vault_secrets_operator.Api.DynamicSecret.{DynamicSecret, Lease}
use vault_secrets_operator.Common.Errors.{Error, lease_id_changed}
use vault_secrets_operator.Controllers.Reconciler.{Reconciler}
use vault_secrets_operator.Controllers.DynamicSecret.{World, update_status}
use vault_secrets_operator.Controllers.DynamicSecret.Window.{second}
use vault_secrets_operator.Controllers.DynamicSecret.Rotation.{Operation}
use vault_secrets_operator.Controllers.DynamicSecret.Reconcile.{
  Reply, done, requeue_after, returned,
}

module _ (r : Reconciler) (retry : Operation r → Operation r) where
  open r use {factory}

  -- The destination, the demands for a sync and the restarts are what they were.
  pub record IsUntouched (w w' : World r) : Type 0 where
    pub cluster : w'.cluster ≡ w.cluster
    pub sync_registry : w'.sync_registry ≡ w.sync_registry
    pub back_offs : w'.back_offs ≡ w.back_offs
    pub restarts : w'.restarts ≡ w.restarts

  -- The duration for which a renewed lease counts.
  abbrev pub counted : Lease → ℕ
  counted lease =
      if nat_eq lease.lease_duration 0 then 5 * second else lease.lease_duration * second

  -- The ways in which the reconciliation of a renewed lease ends, in the world after the renewal. An
  -- error makes the runtime try again: that the lease has another ID, or that the status with the
  -- lease was not written.
  pub data Ending (old : DynamicSecret) (new : Lease) (w : World r) : Reply → Type 0 where
    no_longer_renewable : new.renewable ≡ false → Ending old new w done
    replaced :
        new.id ≢ old.status.secret_lease.id
        → new.renewable ≡ true
        → Ending old new w (returned (lease_id_changed old.status.secret_lease.id new.id))
    not_stored :
        (o : DynamicSecret) (e : Error)
        → new.id ≡ old.status.secret_lease.id
        → new.renewable ≡ true
        → o.meta ≡ old.meta
        → o.status.secret_lease ≡ new
        → (update_status r o w).1 ≡ err e
        → Ending old new w (returned e)
    kept :
        {h : ℕ}
        → new.id ≡ old.status.secret_lease.id
        → new.renewable ≡ true
        → 100_000_000_000_000 * h ≤ 100_000_000_000_001 * counted new
        → Ending old new w (requeue_after h)
