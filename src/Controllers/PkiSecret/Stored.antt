-- ===== src/Controllers/PkiSecret/Stored.antt =====
-- What updateStatus leaves of a VaultPKISecret.
use vault_secrets_operator.Base.{
  ◌≡◌, refl, String, not, ◌&&◌, some, List, [], ◌∷◌, ◌++◌, arith, Option-cases, Bool-cases, inl,
  inr, contains, text_key,
}
use vault_secrets_operator.Base.Map
use vault_secrets_operator.Base.Map.{get-put}
use vault_secrets_operator.Base.Result.{ok}
use vault_secrets_operator.Api.Names.{ObjectKey, object_key}
use vault_secrets_operator.Api.PkiSecret.{PkiSecret, PkiStatus}
use vault_secrets_operator.Controllers.Reconciler.{Reconciler}
use vault_secrets_operator.Controllers.PkiSecret.{
  World, update_status, status_update, maybe_add_finalizer, update_finalizers, finalizer,
}

append-cons :
    (fs : List String) (f : String) → (g : String) × (gs : List String) × (fs ++ (f ∷ []) ≡ g ∷ gs)
append-cons [] f = (f, [], refl)
append-cons (g ∷ gs) f = (g, gs ++ (f ∷ []), refl)

module _ (r : Reconciler) where
  -- A resource is stored with a status and a MAC.
  pub record IsStored (key : ObjectKey) (status : PkiStatus) (mac : String) (w : World r)
      : Type 0 where
    pub object : PkiSecret
    pub found : Map.get key w.objects ≡ some object
    pub status_of : object.status ≡ status
    pub mac_of : object.common.secret_mac ≡ mac

  maybe_add_finalizer-IsStored :
      (key : ObjectKey) (o new : PkiSecret) (w : World r)
      → Map.get key w.objects ≡ some o
      → o.meta.key ≡ key
      → (maybe_add_finalizer r o w).1 ≡ ok new
      → IsStored key o.status o.common.secret_mac (maybe_add_finalizer r o w).0
  unfolding maybe_add_finalizer update_finalizers
  maybe_add_finalizer-IsStored key o new w found at done =
      elim (Bool-cases (not o.deleting && not (contains finalizer o.finalizers))) [
        | inr there ↦ record { object = o; found = ground arith; status_of = refl; mac_of = refl }
        | inl missing ↦
            let (g, gs, more) = append-cons o.finalizers finalizer in
            let o' : PkiSecret = record o { finalizers = o.finalizers ++ (finalizer ∷ []) } in
            elim (Option-cases w.faults.update) [
              | inr (x, e) ↦ absurd (ground arith)
              | inl e ↦ record {
                object = o';
                found =
                    ground (arith, more, get-put key key o' w.objects, object_key.same_iff key key);
                status_of = refl;
                mac_of = refl;
              }
            ]
      ]

  pub update_status-IsStored :
      (key : ObjectKey) (o old new : PkiSecret) (w : World r)
      → Map.get key w.objects ≡ some old
      → o.meta.key ≡ key
      → old.meta.key ≡ key
      → (update_status r o w).1 ≡ ok new
      → IsStored key
          (record (o.status) { last_generation = o.meta.generation })
          o.common.secret_mac
          (update_status r o w).0
  unfolding update_status status_update
  update_status-IsStored key o old new w found at at_old done =
      let stored : PkiSecret = record old {
        status = record (o.status) { last_generation = o.meta.generation };
        common = record (old.common) { secret_mac = o.common.secret_mac };
      } in
      let w' : World r = record w { objects = Map.put key stored w.objects } in
      elim (Option-cases w.faults.status_update) [
        | inr (x, e) ↦ absurd (ground arith)
        | inl e ↦
            let i =
              maybe_add_finalizer-IsStored key stored new w'
                (ground (arith, get-put key key stored w.objects, object_key.same_iff key key))
                at_old (ground arith) in
            record {
              object = i.object;
              found = ground (arith, i.found);
              status_of = i.status_of;
              mac_of = i.mac_of;
            }
      ]
