-- ===== src/Controllers/DynamicSecret/Reconcile.antt =====
-- controllers/vaultdynamicsecret_controller.go: Reconcile.
pub mod Pending
pub mod Settled
pub mod Renewal
mod Examples
use vault_secrets_operator.Base.{
  ℕ, ◌*◌, ◌/◌, String, Bool, true, false, not, ◌&&◌, ◌||◌, Option, none, some, List, [], ◌∷◌, ◌==◌,
  text_key, nat_eq, ltb, if◌then◌else◌,
}
use vault_secrets_operator.Base.Map
use vault_secrets_operator.Base.Result.{Result, ok, err}
use vault_secrets_operator.Api.Names.{ObjectKey, object_key}
use vault_secrets_operator.Api.Secret.{ApiError, is_not_found}
use vault_secrets_operator.Api.DynamicSecret.{
  DynamicSecret, StaticCreds, Lease, ClientMeta, to_object,
}
use vault_secrets_operator.Common.Errors.{Error, api, lease_truncated, lease_id_changed}
use vault_secrets_operator.Helpers.Filter.{SecretTransformationOption}
use vault_secrets_operator.Helpers.Exists.{check_secret_exists}
use vault_secrets_operator.Helpers.Templates.{get_transformation_ref_obj_keys}
use vault_secrets_operator.Vault.Responses.{is_forbidden_error, is_lease_not_found_error}
use vault_secrets_operator.Controllers.BackOff
use vault_secrets_operator.Controllers.Registry
use vault_secrets_operator.Controllers.References
use vault_secrets_operator.Controllers.References.{secret_transformation}
use vault_secrets_operator.Controllers.Horizon.{
  compute_horizon_with_jitter, compute_dynamic_horizon_with_jitter,
}
use vault_secrets_operator.Controllers.Reconciler.{Reconciler, Failure, failed, panicked}
use vault_secrets_operator.Controllers.DynamicSecret.{World, event, get_object, update_status}
use vault_secrets_operator.Controllers.DynamicSecret.Window.{
  second, compute_post_sync_horizon, compute_relative_horizon_with_jitter,
}
use vault_secrets_operator.Controllers.DynamicSecret.Requests.{renew_lease}
use vault_secrets_operator.Controllers.DynamicSecret.Rotation.{Operation}
use vault_secrets_operator.Controllers.DynamicSecret.SyncSecret.{sync_secret}
use vault_secrets_operator.Controllers.DynamicSecret.Deletion.{handle_deletion}

-- What Reconcile returns: nothing to do, a time of the next reconciliation, an error, or a panic.
pub data Reply : Type 0 where
  done : Reply
  requeue_after : ℕ → Reply
  returned : Error → Reply
  panic : Reply

-- `RequeueAfter: entry.NextBackOff()`. backoff.Stop is negative, and then nothing is queued.
unfoldable pub next_attempt : Option ℕ → Reply
next_attempt none = done
next_attempt (some interval) = requeue_after interval

-- requeueDurationOnError
abbrev pub requeue_duration_on_error : ℕ
requeue_duration_on_error = 5 * second

-- The switch: why the secret is synced, if it is. `pending` is SyncRegistry.Has, and the status in
-- `o` is that of the last reconciliation.
unfoldable pub sync_reason : Bool → Bool → ClientMeta → DynamicSecret → Option String
sync_reason pending exists c o =
    let last = o.status.client_meta in
    if nat_eq o.status.last_generation 0
    then some "InitialSync"
    else if pending
    then some "ForceSync"
    else if not (nat_eq o.meta.generation o.status.last_generation)
    then some "ResourceUpdated"
    else if o.common.destination.create && not exists
    then some "InexistentDestination"
    else if not (last.cache_key == "") && not (last.cache_key == c.cache_key)
    then some "VaultClientConfigChanged"
    else if not (last.id == "") && not (last.id == c.id)
    then some "VaultTokenRotated"
    else none

unfoldable pub with_client : ClientMeta → DynamicSecret → DynamicSecret
with_client c o = record o { status = record (o.status) { client_meta = c } }

-- VaultStaticCredsMetaData{}
abbrev pub no_static_creds : StaticCreds
no_static_creds = record {
  last_vault_rotation = 0;
  rotation_period = 0;
  rotation_schedule = "";
  ttl = 0;
}

module _ (r : Reconciler) (retry : Operation r → Operation r) where
  open r use {client, factory, runtime_pod_uid, transformation_option, fresh, next, now, random}

  abbrev pub Outcome : Type 0
  Outcome = World r × Reply

  -- `RequeueAfter: computeHorizonWithJitter(requeueDurationOnError)`
  abbrev pub on_error : Reply
  on_error = requeue_after (compute_horizon_with_jitter requeue_duration_on_error (random 1))

  -- The status is written, and unless that fails the reply is given.
  unfoldable pub stamp : DynamicSecret → World r → (DynamicSecret → World r → Outcome) → Outcome
  stamp o w f =
      let (w', updated) = update_status r o w in
      elim updated [ err e ↦ (w', returned e) | ok new ↦ f new w' ]

  -- The wait after a restart of the operator: a lease that is not due yet, or static credentials
  -- before their rotation.
  unfoldable pub restart_wait : DynamicSecret → Option ℕ
  restart_wait o =
      let (horizon, in_window) = compute_relative_horizon_with_jitter r o second in
      if not (runtime_pod_uid == "")
        && (not (runtime_pod_uid == o.status.last_runtime_pod_uid)
            && (if o.spec.allow_static_creds then in_window else not in_window))
      then some horizon
      else none

  unfoldable pub with_lease : Lease → DynamicSecret → DynamicSecret
  with_lease lease o = record o {
    status = record (o.status) { secret_lease = lease; last_renewal_time = now / second };
  }

  unfoldable pub without_creds : DynamicSecret → DynamicSecret
  without_creds o = record o { status = record (o.status) { static_creds = no_static_creds } }

  -- The time of the next renewal; a lease of no duration counts for five seconds.
  unfoldable pub renewal_horizon : Lease → DynamicSecret → ℕ
  renewal_horizon lease o =
      compute_dynamic_horizon_with_jitter
        (if nat_eq lease.lease_duration 0 then 5 * second else lease.lease_duration * second)
        o.spec.renewal_percent (random 1)

  -- The lease was renewed.
  unfoldable pub keep_renewed : Lease → DynamicSecret → World r → Outcome
  keep_renewed lease o w =
      if not lease.renewable
      then (event r "SecretLeaseRenewal" w, done)
      else if not (lease.id == o.status.secret_lease.id)
      then (
        event r "SecretLeaseRenewal" w,
        returned (lease_id_changed o.status.secret_lease.id lease.id),
      )
      else stamp (with_lease lease (without_creds o)) w
          (λ new w'. (event r "SecretLeaseRenewal" w', requeue_after (renewal_horizon lease new)))

  -- It was not: new credentials are requested.
  unfoldable pub renewal_failed : ClientMeta → Error → World r → World r
  renewal_failed c (lease_truncated expected actual) w = event r "SecretLeaseRenewal" w
  renewal_failed c e w =
      if not (is_lease_not_found_error e)
      then event r "SecretLeaseRenewalError" w
      else if is_forbidden_error e
      then record w { vault = factory.taint c w.vault }
      else w

  -- A sync that fails is due again, after the next interval of its back-off.
  unfoldable pub sync_failed : ObjectKey → ClientMeta → Error → World r → Outcome
  sync_failed key c e w =
      let (interval, back_offs) = BackOff.next_back_off fresh next (random 3) key w.back_offs in
      (
        event r "SecretSyncError" (record w {
          sync_registry = Registry.add key w.sync_registry;
          vault = if is_forbidden_error e then factory.taint c w.vault else w.vault;
          back_offs = back_offs;
        }),
        next_attempt interval,
      )

  -- The tail: the events, the restarts and the registry, and when the secret is synced again.
  unfoldable pub finish_sync : ObjectKey → Bool → String → DynamicSecret → World r → Outcome
  finish_sync key do_restart reason o w =
      let horizon = compute_post_sync_horizon r o in
      (
        record w {
          events = reason ∷ w.events;
          restarts = if do_restart then key ∷ w.restarts else w.restarts;
          sync_registry = (Registry.delete key w.sync_registry).0;
        },
        if nat_eq horizon 0 then done else requeue_after horizon,
      )

  unfoldable pub synced_reason : DynamicSecret → String
  synced_reason o = if ltb 0 o.status.last_generation then "SecretRotated" else "SecretSynced"

  unfoldable pub sync_done : ObjectKey → Bool → DynamicSecret → Lease → Bool → World r → Outcome
  sync_done key do_sync o lease updated w =
      let do_restart = (do_sync && ltb 1 o.status.last_generation) || updated in
      stamp (with_lease lease o)
        (record w { back_offs = (BackOff.delete fresh next key w.back_offs).0 })
        (finish_sync key do_restart (synced_reason o))

  unfoldable pub sync :
      ObjectKey → Bool → ClientMeta → DynamicSecret → SecretTransformationOption → World r → Outcome
  sync key do_sync c o opt w =
      let (w', o', synced) = sync_secret r retry c o opt w in
      elim synced [
        | err panicked ↦ (w', panic)
        | err (failed e) ↦ sync_failed key c e w'
        | ok (lease, updated) ↦ sync_done key do_sync o' lease updated w'
      ]

  unfoldable pub transform_and_sync :
      ObjectKey → Bool → ClientMeta → DynamicSecret → World r → Outcome
  transform_and_sync key do_sync c o w = elim (transformation_option (to_object o)) [
    | err _ ↦ (event r "TransformationError" w, on_error)
    | ok opt ↦ sync key do_sync c o opt w
  ]

  -- No sync is called for: a lease is renewed if it can be.
  unfoldable pub renew_or_sync : ObjectKey → ClientMeta → DynamicSecret → World r → Outcome
  renew_or_sync key c o w =
      let lease = o.status.secret_lease in
      let (v, renewal) = renew_lease r c o w.vault in
      if lease.renewable && (not o.spec.allow_static_creds && not (lease.id == ""))
      then elim renewal [
        | err panicked ↦ (record w { vault = v }, panic)
        | err (failed e) ↦
            transform_and_sync key false c o (renewal_failed c e (record w { vault = v }))
        | ok new ↦ keep_renewed new o (record w { vault = v })
      ]
      else transform_and_sync key false c o w

  unfoldable pub reconcile_client :
      ObjectKey → Bool → ClientMeta → DynamicSecret → World r → Outcome
  reconcile_client key exists c old w =
      let o = with_client c old in
      elim (sync_reason (Registry.has key w.sync_registry) exists c old) [
        | some _ ↦ transform_and_sync key true c o w
        | none ↦ elim (restart_wait o) [
          | some horizon ↦
              stamp o (event r "SecretLeaseRenewal" w) (λ _ w'. (w', requeue_after horizon))
          | none ↦ renew_or_sync key c o w
        ]
      ]

  -- destExists, which is false after an error.
  unfoldable pub destination_exists : DynamicSecret → World r → Bool
  destination_exists o w = elim (check_secret_exists client (to_object o) w.cluster) [
    | ok b ↦ b
    | err _ ↦ false
  ]

  unfoldable pub with_references : ObjectKey → DynamicSecret → World r → World r
  with_references key o w = record w {
    references =
        References.set secret_transformation key
          (get_transformation_ref_obj_keys o.common.destination.transformation o.meta.key.namespace)
          w.references;
  }

  unfoldable pub reconcile_live : ObjectKey → DynamicSecret → World r → Outcome
  reconcile_live key o w =
      let exists = destination_exists o w in
      let (v, got) = factory.get_client (to_object o) w.vault in
      let w' = record w { vault = v } in
      if not o.common.destination.create && not exists
      then (w, requeue_after requeue_duration_on_error)
      else elim got [
        | err _ ↦ (event r "VaultClientConfigError" w', on_error)
        | ok c ↦ reconcile_client key exists c o w'
      ]

  unfoldable pub deleted : World r × Option Error → Outcome
  deleted (w, none) = (w, done)
  deleted (w, some e) = (w, returned e)

  unfoldable pub reconcile : ObjectKey → World r → Outcome
  reconcile key w = elim (get_object r key w) [
    | err e ↦ (w, if is_not_found e then done else returned (api e))
    | ok o ↦
        if o.deleting
        then deleted (handle_deletion r o w)
        else reconcile_live key o (with_references key o w)
  ]
