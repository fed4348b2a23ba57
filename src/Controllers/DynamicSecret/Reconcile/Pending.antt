-- ===== src/Controllers/DynamicSecret/Reconcile/Pending.antt =====
-- The demand for a sync that the SyncRegistry holds.
use vault_secrets_operator.Base.{
  ◌≡◌, ◌≢◌, ◌⊎◌, inl, inr, Bool, true, false, not, ◌&&◌, none, arith, text_key, Bool-cases,
  Option-cases,
}
use vault_secrets_operator.Base.Map.{get-put}
use vault_secrets_operator.Base.Result.{ok, err, Result-cases}
use vault_secrets_operator.Api.Names.{ObjectKey, object_key}
use vault_secrets_operator.Api.DynamicSecret.{DynamicSecret, Lease, ClientMeta, to_object}
use vault_secrets_operator.Common.Errors.{Error}
use vault_secrets_operator.Helpers.Filter.{SecretTransformationOption}
use vault_secrets_operator.Controllers.BackOff
use vault_secrets_operator.Controllers.Registry
use vault_secrets_operator.Controllers.Reconciler.{Reconciler, failed, panicked}
use vault_secrets_operator.Controllers.DynamicSecret.{
  World, event, get_object, update_status, status_update, maybe_add_finalizer, update_finalizers,
}
use vault_secrets_operator.Controllers.DynamicSecret.Rotation.{Operation}
use vault_secrets_operator.Controllers.DynamicSecret.SyncSecret.{sync_secret}
use vault_secrets_operator.Controllers.DynamicSecret.SyncSecret.Keeps.{sync_secret-Keeps}
use vault_secrets_operator.Controllers.DynamicSecret.Reconcile.{
  next_attempt, sync_reason, with_client, sync_failed, sync, transform_and_sync, reconcile_client,
  reconcile_live, reconcile, destination_exists, with_references,
}

pub sync_reason-pending :
    (exists : Bool) (c : ClientMeta) (o : DynamicSecret) → sync_reason true exists c o ≢ none
unfolding sync_reason
sync_reason-pending exists c o = ground arith

module _ (r : Reconciler) (retry : Operation r → Operation r) where
  open r use {factory}

  abbrev pending : ObjectKey → World r → Bool
  pending key w = Registry.has key w.sync_registry

  sync_failed-pending :
      (key : ObjectKey) (c : ClientMeta) (e : Error) (w : World r)
      → pending key (sync_failed r retry key c e w).0 ≡ true
  unfolding sync_failed event Registry.add Registry.has
  sync_failed-pending key c e w =
      ground (arith, get-put key key tt w.sync_registry, object_key.same_iff key key)

  pub update_status-registry :
      (o : DynamicSecret) (w : World r) → (update_status r o w).0.sync_registry ≡ w.sync_registry
  unfolding update_status status_update maybe_add_finalizer update_finalizers event
  update_status-registry o w = ground arith

  -- The secret was fetched from Vault and its destination is as it should be.
  pub record IsSynced (c : ClientMeta) (o : DynamicSecret) (w : World r) : Type 0 where
    pub option : SecretTransformationOption
    pub option_of : r.transformation_option (to_object o) ≡ ok option
    pub lease : Lease
    pub updated : Bool
    pub synced : (sync_secret r retry c o option w).2 ≡ ok (lease, updated)

  sync-pending :
      (key : ObjectKey) (do_sync : Bool) (c : ClientMeta) (o : DynamicSecret)
      (opt : SecretTransformationOption) (w : World r)
      → pending key w ≡ true
      → (pending key (sync r retry key do_sync c o opt w).0 ≡ true)
        ⊎ ((s : Lease × Bool) × ((sync_secret r retry c o opt w).2 ≡ ok s))
  unfolding sync
  sync-pending key do_sync c o opt w h =
      let same = (sync_secret-Keeps r retry c o opt w).sync_registry in
      elim (Result-cases (sync_secret r retry c o opt w).2) [
        | inl (panicked, e) ↦ inl (ground (arith, h, same))
        | inl (failed x, e) ↦
            inl (ground (arith, sync_failed-pending key c x (sync_secret r retry c o opt w).0))
        | inr (s, e) ↦ inr (s, e)
      ]

  transform_and_sync-pending :
      (key : ObjectKey) (do_sync : Bool) (c : ClientMeta) (o : DynamicSecret) (w : World r)
      → pending key w ≡ true
      → (pending key (transform_and_sync r retry key do_sync c o w).0 ≡ true) ⊎ IsSynced c o w
  unfolding transform_and_sync event
  transform_and_sync-pending key do_sync c o w h =
      elim (Result-cases (r.transformation_option (to_object o))) [
        | inl (x, e) ↦ inl (ground arith)
        | inr (opt, e) ↦ elim (sync-pending key do_sync c o opt w h) [
          | inl kept ↦ inl (ground arith)
          | inr ((lease, updated), s) ↦
              inr (record {
                option = opt;
                option_of = e;
                lease = lease;
                updated = updated;
                synced = s;
              })
        ]
      ]

  -- The resource is there and live, a client was got for it, and the sync was a success.
  pub record WasSynced (key : ObjectKey) (w : World r) : Type 0 where
    pub object : DynamicSecret
    pub found : get_object r key w ≡ ok object
    pub live : object.deleting ≡ false
    pub ready :
        (not object.common.destination.create && not (destination_exists r retry object w)) ≡ false
    pub client : ClientMeta
    pub got : (factory.get_client (to_object object) w.vault).1 ≡ ok client
    pub synced :
        IsSynced client (with_client client object) (record (with_references r retry key object w) {
          vault = (factory.get_client (to_object object) w.vault).0;
        })

  pub IsDeleting : ObjectKey → World r → Type 0
  IsDeleting key w = (o : DynamicSecret) × (get_object r key w ≡ ok o) × (o.deleting ≡ true)

  reconcile_client-pending :
      (key : ObjectKey) (exists : Bool) (c : ClientMeta) (o : DynamicSecret) (w : World r)
      → pending key w ≡ true
      → (pending key (reconcile_client r retry key exists c o w).0 ≡ true)
        ⊎ IsSynced c (with_client c o) w
  unfolding reconcile_client
  reconcile_client-pending key exists c o w h =
      elim (Option-cases (sync_reason (Registry.has key w.sync_registry) exists c o)) [
        | inl e ↦ absurd (ground (arith, sync_reason-pending exists c o))
        | inr (x, e) ↦ elim (transform_and_sync-pending key true c (with_client c o) w h) [
          | inl kept ↦ inl (ground arith)
          | inr s ↦ inr s
        ]
      ]

  reconcile_live-pending :
      (key : ObjectKey) (o : DynamicSecret) (w : World r)
      → pending key w ≡ true
      → (pending key (reconcile_live r retry key o w).0 ≡ true)
        ⊎ ((c : ClientMeta) × ((not o.common.destination.create
                && not (destination_exists r retry o w))
              ≡ false)
            × ((factory.get_client (to_object o) w.vault).1 ≡ ok c)
            × IsSynced c
                (with_client c o)
                (record w { vault = (factory.get_client (to_object o) w.vault).0 }))
  unfolding reconcile_live event
  reconcile_live-pending key o w h =
      let exists = destination_exists r retry o w in
      let w' = record w { vault = (factory.get_client (to_object o) w.vault).0 } in
      elim (Bool-cases (not o.common.destination.create && not exists)) [
        | inl stop ↦ inl (ground arith)
        | inr go ↦ elim (Result-cases (factory.get_client (to_object o) w.vault).1) [
          | inl (x, e) ↦ inl (ground arith)
          | inr (c, e) ↦ elim (reconcile_client-pending key exists c o w' h) [
            | inl kept ↦ inl (ground arith)
            | inr s ↦ inr (c, go, e, s)
          ]
        ]
      ]

  -- A sync that is demanded is not forgotten: when the resource is reconciled the demand stands
  -- until the sync is a success, unless the resource is being deleted.
  pub reconcile-pending :
      (key : ObjectKey) (w : World r)
      → Registry.has key w.sync_registry ≡ true
      → (Registry.has key (reconcile r retry key w).0.sync_registry ≡ true)
        ⊎ IsDeleting key w
        ⊎ WasSynced key w
  unfolding reconcile with_references destination_exists IsDeleting
  reconcile-pending key w h = elim (Result-cases (get_object r key w)) [
    | inl (x, e) ↦ inl (ground arith)
    | inr (o, e) ↦ elim (Bool-cases o.deleting) [
      | inl d ↦ inr (inl (o, e, d))
      | inr live ↦ elim (reconcile_live-pending key o (with_references r retry key o w) h) [
        | inl kept ↦ inl (ground arith)
        | inr (c, ready, got, s) ↦ inr (
            inr (record {
              object = o;
              found = e;
              live = live;
              ready = ground (arith, ready);
              client = c;
              got = got;
              synced = s;
            }))
      ]
    ]
  ]

  -- A sync that fails changes no resource and is due again after the next interval of the resource's
  -- back-off, if that has not come to its end, and the next reconciliation syncs it for whatever reason: the demand is enough.
  pub sync_secret_failed :
      (key : ObjectKey) (do_sync exists : Bool) (c c' : ClientMeta) (o o' : DynamicSecret)
      (opt : SecretTransformationOption) (w : World r) (e : Error)
      → (sync_secret r retry c o opt w).2 ≡ err (failed e)
      → let (w', reply) = sync r retry key do_sync c o opt w in
        (reply ≡ next_attempt (BackOff.next_back_off r.fresh r.next (r.random 3) key w.back_offs).0)
        × (w'.back_offs ≡ (BackOff.next_back_off r.fresh r.next (r.random 3) key w.back_offs).1)
        × (w'.objects ≡ w.objects)
        × (sync_reason (Registry.has key w'.sync_registry) exists c' o' ≢ none)
  unfolding sync sync_failed event
  sync_secret_failed key do_sync exists c c' o o' opt w e h =
      let keeps = sync_secret-Keeps r retry c o opt w in
      let w' = (sync_secret r retry c o opt w).0 in
      let due = sync_failed-pending key c e w' in
      (
        ground (arith, keeps.back_offs),
        ground (arith, keeps.back_offs),
        ground (arith, keeps.objects),
        ground (arith, due, sync_reason-pending exists c' o'),
      )
