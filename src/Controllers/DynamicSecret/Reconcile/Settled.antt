-- ===== src/Controllers/DynamicSecret/Reconcile/Settled.antt =====
-- A sync that was a success is not repeated.
use mathlib.Core.Path.{subst}
use vault_secrets_operator.Base.{
  refl, ℕ, ◌≡◌, ◌≢◌, String, Bool, true, false, not, ◌&&◌, ◌||◌, none, some, List, [], ◌∷◌, ◌++◌,
  contains, sym, ◌∙◌, arith, text_key, ltb, Bool-cases, inl, inr, ==_refl,
}
use vault_secrets_operator.Base.Map
use vault_secrets_operator.Base.Map.{get-put, get-delete}
use vault_secrets_operator.Base.Result.{Result, ok}
use vault_secrets_operator.Api.Names.{ObjectKey, object_key}
use vault_secrets_operator.Common.Errors.{Error}
use vault_secrets_operator.Api.DynamicSecret.{DynamicSecret, Lease, ClientMeta, to_object}
use vault_secrets_operator.Helpers.Filter.{SecretTransformationOption}
use vault_secrets_operator.Controllers.BackOff
use vault_secrets_operator.Controllers.Registry
use vault_secrets_operator.Controllers.Reconciler.{Reconciler}
use vault_secrets_operator.Controllers.DynamicSecret.{
  World, get_object, update_status, status_update, stamped, maybe_add_finalizer, update_finalizers,
  finalizer,
}
use vault_secrets_operator.Controllers.DynamicSecret.Rotation.{Operation}
use vault_secrets_operator.Controllers.DynamicSecret.SyncSecret.{sync_secret}
use vault_secrets_operator.Controllers.DynamicSecret.SyncSecret.Keeps.{sync_secret-Keeps}
use vault_secrets_operator.Controllers.DynamicSecret.Reconcile.{
  sync_reason, with_client, with_lease, stamp, finish_sync, sync_done, sync, transform_and_sync,
  reconcile_client, reconcile_live, reconcile, destination_exists, with_references, synced_reason,
}
use vault_secrets_operator.Controllers.DynamicSecret.Reconcile.Pending.{
  WasSynced, sync_reason-pending,
}

-- The status says that the resource was synced as it is, with the client.
pub record IsUpToDate (c : ClientMeta) (o : DynamicSecret) : Type 0 where
  pub generation : o.status.last_generation ≡ o.meta.generation
  pub client : o.status.client_meta ≡ c

IsUpToDate-sync_reason :
    (c : ClientMeta) (o : DynamicSecret)
    → IsUpToDate c o
    → o.meta.generation ≢ 0
    → sync_reason false true c o ≡ none
unfolding sync_reason
IsUpToDate-sync_reason c o u n =
    ground (arith, u.generation, u.client, ==_refl c.cache_key, ==_refl c.id)

module _ (r : Reconciler) (retry : Operation r → Operation r) where
  open r use {factory}

  -- The API server answers without an error.
  pub record IsWell (w : World r) : Type 0 where
    pub read : w.faults.read ≡ none
    pub status_update : w.faults.status_update ≡ none
    pub update : w.faults.update ≡ none

  -- The resource is stored up to date.
  pub record Stored (key : ObjectKey) (c : ClientMeta) (generation : ℕ) (w : World r) : Type 0 where
    pub object : DynamicSecret
    pub found : get_object r key w ≡ ok object
    pub key_of : object.meta.key ≡ key
    pub up_to_date : IsUpToDate c object
    pub generation_of : object.meta.generation ≡ generation

  put-found :
      (key : ObjectKey) (o : DynamicSecret) (w : World r)
      → IsWell w
      → get_object r key (record w { objects = Map.put key o w.objects }) ≡ ok o
  unfolding get_object
  put-found key o w well =
      ground (arith, well.read, get-put key key o w.objects, object_key.same_iff key key)

  get_object-objects :
      (key : ObjectKey) (o : DynamicSecret) (w : World r)
      → get_object r key w ≡ ok o
      → Map.get key w.objects ≡ some o
  unfolding get_object
  get_object-objects key o w h = ground arith

  -- What the server makes of a status.
  abbrev accepted : DynamicSecret → DynamicSecret → DynamicSecret
  accepted o old = record old {
    status = (stamped r o).status;
    common = record (old.common) { secret_mac = o.common.secret_mac };
  }

  abbrev with_object : ObjectKey → DynamicSecret → World r → World r
  with_object key o w = record w { objects = Map.put key o w.objects }

  abbrev with_finalizers : List String → DynamicSecret → DynamicSecret
  with_finalizers fs o = record o { finalizers = fs }

  -- The resource is stored, and in hand after a call without an error.
  abbrev Kept : ObjectKey → ClientMeta → ℕ → World r × Result Error DynamicSecret → Type 0
  Kept key c n (w, updated) = ((new : DynamicSecret) × (updated ≡ ok new)) × Stored key c n w

  maybe_add_finalizer-added :
      (key : ObjectKey) (o : DynamicSecret) (w : World r)
      → IsWell w
      → get_object r key w ≡ ok o
      → o.meta.key ≡ key
      → (not o.deleting && not (contains finalizer o.finalizers)) ≡ true
      → let new = with_finalizers (o.finalizers ++ (finalizer ∷ [])) o in
        maybe_add_finalizer r o w ≡ (with_object key new w, ok new)
  unfolding maybe_add_finalizer update_finalizers
  maybe_add_finalizer-added key o w well found at missing =
      ground (arith, well.update, get_object-objects key o w found)

  maybe_add_finalizer-Kept :
      (key : ObjectKey) (c : ClientMeta) (o : DynamicSecret) (w : World r)
      → IsWell w
      → get_object r key w ≡ ok o
      → o.meta.key ≡ key
      → IsUpToDate c o
      → Kept key c o.meta.generation (maybe_add_finalizer r o w)
  maybe_add_finalizer-Kept key c o w well found at u =
      let new = with_finalizers (o.finalizers ++ (finalizer ∷ [])) o in
      elim (Bool-cases (not o.deleting && not (contains finalizer o.finalizers))) [
        | inl missing ↦
            subst (Kept key c o.meta.generation)
              (sym (maybe_add_finalizer-added key o w well found at missing))
              (
                (new, refl),
                record {
                  object = new;
                  found = put-found key new w well;
                  key_of = at;
                  up_to_date = record { generation = u.generation; client = u.client };
                  generation_of = refl;
                },
              )
        | inr there ↦
            unfold maybe_add_finalizer in
            (rw there (
              (o, refl),
              record {
                object = o;
                found = found;
                key_of = at;
                up_to_date = u;
                generation_of = refl;
              },
            ))
      ]

  status_update-accepted :
      (key : ObjectKey) (o old : DynamicSecret) (w : World r)
      → IsWell w
      → get_object r key w ≡ ok old
      → o.meta.key ≡ key
      → status_update r (stamped r o) w ≡ (with_object key (accepted o old) w, ok (accepted o old))
  unfolding status_update stamped
  status_update-accepted key o old w well found at =
      ground (arith, well.status_update, get_object-objects key old w found)

  accepted-IsUpToDate :
      (c : ClientMeta) (o old : DynamicSecret)
      → o.meta ≡ old.meta
      → o.status.client_meta ≡ c
      → IsUpToDate c (accepted o old)
  unfolding stamped
  accepted-IsUpToDate c o old same client = record { generation = ground arith; client = client }

  update_status-Kept :
      (key : ObjectKey) (c : ClientMeta) (o old : DynamicSecret) (w : World r)
      → IsWell w
      → get_object r key w ≡ ok old
      → o.meta ≡ old.meta
      → old.meta.key ≡ key
      → o.status.client_meta ≡ c
      → Kept key c old.meta.generation (update_status r o w)
  unfolding update_status
  update_status-Kept key c o old w well found same at client =
      let w' = with_object key (accepted o old) w in
      let well' : IsWell w' = record {
        read = well.read;
        status_update = well.status_update;
        update = well.update;
      } in
      subst (Kept key c old.meta.generation)
        (ground (arith, status_update-accepted key o old w well found (ground arith)))
        (maybe_add_finalizer-Kept key c (accepted o old) w' well'
          (put-found key (accepted o old) w well) at (accepted-IsUpToDate c o old same client))

  -- The tail of a reconciliation that synced: the demand is gone, and the rest of what was stored
  -- stands.
  finish_sync_settled :
      (key : ObjectKey) (c : ClientMeta) (n : ℕ) (do_restart : Bool) (reason : String)
      (o : DynamicSecret) (w : World r)
      → n ≢ 0
      → (s : Stored key c n w)
      → let w' = (finish_sync r retry key do_restart reason o w).0 in
        (get_object r key w' ≡ ok s.object)
        × (Registry.has key w'.sync_registry ≡ false)
        × (sync_reason (Registry.has key w'.sync_registry) true c s.object ≡ none)
  unfolding finish_sync Registry.delete Registry.has get_object
  finish_sync_settled key c n do_restart reason o w nonzero s = (
    s.found,
    ground (arith, get-delete key key w.sync_registry, object_key.same_iff key key),
    ground (
      arith,
      get-delete key key w.sync_registry,
      object_key.same_iff key key,
      IsUpToDate-sync_reason c s.object s.up_to_date,
      s.generation_of,
    ),
  )

  -- The resource is stored with the client and the generation of a sync, and calls for no other.
  pub record IsSettled (key : ObjectKey) (c : ClientMeta) (generation : ℕ) (w : World r)
      : Type 0 where
    pub object : DynamicSecret
    pub found : get_object r key w ≡ ok object
    pub client : object.status.client_meta ≡ c
    pub spec_generation : object.meta.generation ≡ generation
    pub synced_generation : object.status.last_generation ≡ generation
    pub not_due : Registry.has key w.sync_registry ≡ false
    pub quiet : sync_reason (Registry.has key w.sync_registry) true c object ≡ none

  sync_done-IsSettled :
      (key : ObjectKey) (do_sync : Bool) (c : ClientMeta) (o old : DynamicSecret) (lease : Lease)
      (updated : Bool) (w : World r)
      → IsWell w
      → get_object r key w ≡ ok old
      → o.meta ≡ old.meta
      → old.meta.key ≡ key
      → old.meta.generation ≢ 0
      → o.status.client_meta ≡ c
      → IsSettled key c old.meta.generation (sync_done r retry key do_sync o lease updated w).0
  unfolding sync_done stamp with_lease
  sync_done-IsSettled key do_sync c o old lease updated w well found same at nonzero client =
      let w1 = record w { back_offs = (BackOff.delete r.fresh r.next key w.back_offs).0 } in
      let well1 : IsWell w1 = record {
        read = well.read;
        status_update = well.status_update;
        update = well.update;
      } in
      let found1 : get_object r key w1 ≡ ok old = unfold get_object in found in
      let o1 = with_lease r retry lease o in
      let ((new, e), s) = update_status-Kept key c o1 old w1 well1 found1 same at client in
      let do_restart = (do_sync && ltb 1 o.status.last_generation) || updated in
      let w2 = (update_status r o1 w1).0 in
      let (found2, undue, calm) =
        finish_sync_settled key c old.meta.generation do_restart (synced_reason r retry o) new w2
          nonzero s in
      record {
        object = s.object;
        found = ground arith;
        client = s.up_to_date.client;
        spec_generation = s.generation_of;
        synced_generation = s.up_to_date.generation ∙ s.generation_of;
        not_due = ground arith;
        quiet = ground arith;
      }

  sync-IsSettled :
      (key : ObjectKey) (do_sync : Bool) (c : ClientMeta) (o old : DynamicSecret)
      (opt : SecretTransformationOption) (w : World r) (s : Lease × Bool)
      → IsWell w
      → get_object r key w ≡ ok old
      → o.meta ≡ old.meta
      → old.meta.key ≡ key
      → old.meta.generation ≢ 0
      → o.status.client_meta ≡ c
      → (sync_secret r retry c o opt w).2 ≡ ok s
      → IsSettled key c old.meta.generation (sync r retry key do_sync c o opt w).0
  unfolding sync
  sync-IsSettled key do_sync c o old opt w (lease, updated) well found same at nonzero client e =
      let keeps = sync_secret-Keeps r retry c o opt w in
      let w' = (sync_secret r retry c o opt w).0 in
      let o' = (sync_secret r retry c o opt w).1 in
      let well' : IsWell w' = record {
        read = ground (arith, keeps.faults, well.read);
        status_update = ground (arith, keeps.faults, well.status_update);
        update = ground (arith, keeps.faults, well.update);
      } in
      let found' : get_object r key w' ≡ ok old =
        unfold get_object in ground (arith, keeps.faults, keeps.objects) in
      let settled =
        sync_done-IsSettled key do_sync c o' old lease updated w' well' found'
          (ground (arith, keeps.meta)) at nonzero (ground (arith, keeps.client_meta)) in
      record {
        object = settled.object;
        found = ground (arith, settled.found);
        client = settled.client;
        spec_generation = settled.spec_generation;
        synced_generation = settled.synced_generation;
        not_due = ground (arith, settled.not_due);
        quiet = ground (arith, settled.quiet);
      }

  -- The world that the sync starts from.
  abbrev synced_from : (key : ObjectKey) (w : World r) → WasSynced r retry key w → World r
  synced_from key w s = record (with_references r retry key s.object w) {
    vault = (factory.get_client (to_object s.object) w.vault).0;
  }

  reconcile-sync :
      (key : ObjectKey) (w : World r)
      → Registry.has key w.sync_registry ≡ true
      → (s : WasSynced r retry key w)
      → reconcile r retry key w
        ≡ sync r retry key true s.client
            (with_client s.client s.object)
            s.synced.option
            (synced_from key w s)
  unfolding reconcile reconcile_live reconcile_client transform_and_sync with_references
      destination_exists
  reconcile-sync key w h s = ground (
    arith,
    s.found,
    s.live,
    s.ready,
    s.got,
    s.synced.option_of,
    sync_reason-pending (destination_exists r retry s.object w) s.client s.object,
  )

  -- A resource whose sync is demanded, and is a success while the API server answers without an
  -- error, needs no other: it is stored with the client of the sync and with its own generation as
  -- the last one, the demand is gone, and while the client and the destination stay, the stored
  -- resource gives no reason to sync.
  pub reconcile-IsSettled :
      (key : ObjectKey) (w : World r)
      → IsWell w
      → Registry.has key w.sync_registry ≡ true
      → (s : WasSynced r retry key w) → s.object.meta.key ≡ key
      → s.object.meta.generation ≢ 0
      → IsSettled key s.client s.object.meta.generation (reconcile r retry key w).0
  reconcile-IsSettled key w well h s at nonzero =
      let w1 = synced_from key w s in
      let well1 : IsWell w1 =
        unfold with_references in
        record { read = well.read; status_update = well.status_update; update = well.update } in
      let found1 : get_object r key w1 ≡ ok s.object =
        unfold get_object with_references in s.found in
      let o = with_client s.client s.object in
      subst (λ x. IsSettled key s.client s.object.meta.generation x.0)
        (sym (reconcile-sync key w h s))
        (sync-IsSettled key true s.client o s.object s.synced.option w1
          (s.synced.lease, s.synced.updated) well1 found1 (unfold with_client in refl) at nonzero
          (unfold with_client in refl) s.synced.synced)
