-- ===== src/Controllers/EventHandlers/Queued.antt =====
-- Which requests and which marks for a sync an event leaves behind.
use vault_secrets_operator.Base.{
  ℕ, suc, String, text_key, ◌≡◌, refl, Bool, true, false, not, ◌&&◌, ◌||◌, List, [], ◌∷◌, ◌++◌,
  arith, ◌==◌, nat_eq, is_some, contains,
}
use vault_secrets_operator.Base.Map.{get-put}
use vault_secrets_operator.Api.Names.{ObjectKey, object_key}
use vault_secrets_operator.Api.Secret.{OwnerReference}
use vault_secrets_operator.Controllers.Horizon.{compute_max_jitter}
use vault_secrets_operator.Controllers.Registry
use vault_secrets_operator.Controllers.Registry.{SyncRegistry}
use vault_secrets_operator.Controllers.References
use vault_secrets_operator.Controllers.References.{ResourceKind}
use vault_secrets_operator.Controllers.References.Scopes.{refers}
use vault_secrets_operator.Controllers.References.Tight.{IsWellFormed}
use vault_secrets_operator.Controllers.References.View.{contains-get}
use vault_secrets_operator.Controllers.EventHandlers.{
  Queues, max_requeue_after, add_after, RefHandler, enqueue_ref, enqueue_refs, enqueue, on_update,
  enqueue_owners, on_secret_deleted, is_queued,
}

is_queued-append :
    (key k : ObjectKey) (delay : ℕ) (q : List (ObjectKey × ℕ))
    → is_queued key (q ++ ((k, delay) ∷ [])) ≡ (is_queued key q || k == key)
unfolding is_queued
is_queued-append key k delay [] = ground arith
is_queued-append key k delay ((j, _) ∷ q) = ground (arith, is_queued-append key k delay q)

is_queued-add_after :
    (key k : ObjectKey) (d random : ℕ) (q : Queues)
    → is_queued key (add_after k d random q).queue ≡ (is_queued key q.queue || k == key)
unfolding add_after
is_queued-add_after key k d random q =
    is_queued-append key k (compute_max_jitter d random).1 q.queue

has-add :
    (k j : ObjectKey) (r : SyncRegistry)
    → Registry.has k (Registry.add j r) ≡ (j == k || Registry.has k r)
unfolding Registry.has Registry.add
has-add k j r = ground (arith, get-put j k tt r)

is_queued-enqueue_ref :
    (key : ObjectKey) (syncs : Bool) (d random : ℕ) (k : ObjectKey) (reqs : List ObjectKey)
    (q : Queues)
    → is_queued key (enqueue_ref syncs d random k reqs q).queue
      ≡ (is_queued key q.queue || not (contains k reqs) && k == key)
unfolding enqueue_ref add_after
is_queued-enqueue_ref key syncs d random k reqs q =
    ground (arith, is_queued-append key k (compute_max_jitter d random).1 q.queue)

has-enqueue_ref :
    (key : ObjectKey) (syncs : Bool) (d random : ℕ) (k : ObjectKey) (reqs : List ObjectKey)
    (q : Queues)
    → Registry.has key (enqueue_ref syncs d random k reqs q).sync_registry
      ≡ (Registry.has key q.sync_registry || syncs && k == key)
unfolding enqueue_ref add_after
has-enqueue_ref key syncs d random k reqs q = ground (arith, has-add key k q.sync_registry)

-- The requests made so far are queued; the loop queues the others.
is_queued-enqueue_refs :
    (key : ObjectKey) (syncs : Bool) (d : ℕ) (random : ℕ → ℕ) (ks reqs : List ObjectKey)
    (q : Queues)
    → (contains key reqs ≡ true → is_queued key q.queue ≡ true)
    → is_queued key (enqueue_refs syncs d random ks reqs q).queue
      ≡ (is_queued key q.queue || contains key ks)
unfolding enqueue_refs contains
is_queued-enqueue_refs key syncs d random [] reqs q h = ground arith
is_queued-enqueue_refs key syncs d random (k ∷ ks) reqs q h =
    let next = enqueue_ref syncs d (random 0) k reqs q in
    let one = is_queued-enqueue_ref key syncs d (random 0) k reqs q in
    let rest =
      is_queued-enqueue_refs key syncs d (λ i. random (suc i)) ks (k ∷ reqs) next
        (λ m. ground (arith, one, h, object_key.same_iff k key)) in
    ground (arith, one, rest, h, object_key.same_iff k key)

has-enqueue_refs :
    (key : ObjectKey) (syncs : Bool) (d : ℕ) (random : ℕ → ℕ) (ks reqs : List ObjectKey)
    (q : Queues)
    → Registry.has key (enqueue_refs syncs d random ks reqs q).sync_registry
      ≡ (Registry.has key q.sync_registry || syncs && contains key ks)
unfolding enqueue_refs contains
has-enqueue_refs key syncs d random [] reqs q = ground arith
has-enqueue_refs key syncs d random (k ∷ ks) reqs q = ground (
  arith,
  has-enqueue_ref key syncs d (random 0) k reqs q,
  has-enqueue_refs key syncs d (λ i. random (suc i)) ks (k ∷ reqs)
      (enqueue_ref syncs d (random 0) k reqs q),
)

contains-is_empty :
    (key : ObjectKey) (ks : List ObjectKey)
    → References.is_empty ks ≡ true
    → contains key ks ≡ false
unfolding contains
contains-is_empty key [] h = refl
contains-is_empty key (k ∷ ks) h = ground arith

references-enqueue_refs :
    (syncs : Bool) (d : ℕ) (random : ℕ → ℕ) (ks reqs : List ObjectKey) (q : Queues)
    → (enqueue_refs syncs d random ks reqs q).references ≡ q.references
unfolding enqueue_refs enqueue_ref add_after
references-enqueue_refs syncs d random [] reqs q = refl
references-enqueue_refs syncs d random (k ∷ ks) reqs q = ground (
  arith,
  references-enqueue_refs syncs d (λ i. random (suc i)) ks (k ∷ reqs)
      (enqueue_ref syncs d (random 0) k reqs q),
)

-- An update of a transformation queues exactly the resources that name it, and marks them for a
-- sync.
pub is_queued-on_update :
    (h : RefHandler) (random : ℕ → ℕ) (key r : ObjectKey) (old new : ℕ) (q : Queues)
    → IsWellFormed q.references
    → let q' = on_update h random key old new q in
      let wakes =
        not (nat_eq new old)
        && not (is_some (h.validator key))
        && refers q.references h.kind r key in
      (is_queued r q'.queue ≡ (is_queued r q.queue || wakes))
      × (Registry.has r q'.sync_registry ≡ (Registry.has r q.sync_registry || h.syncs && wakes))
      × (q'.references ≡ q.references)
unfolding on_update enqueue contains
is_queued-on_update h random key r old new q w =
    let named = contains-get q.references h.kind key r w in
    let ks = References.get h.kind key q.references in
    let d = max_requeue_after h.max in
    ground (
      arith,
      named,
      is_queued-enqueue_refs r h.syncs d random ks [] q (λ m. absurd (ground arith)),
      has-enqueue_refs r h.syncs d random ks [] q,
      references-enqueue_refs h.syncs d random ks [] q,
      contains-is_empty r ks,
    )

-- Whether one of the owners is the resource of that version and kind, in the namespace of the
-- Secret.
pub is_owned_by : String → String → String → List OwnerReference → ObjectKey → Bool
is_owned_by version kind ns [] r = false
is_owned_by version kind ns (o ∷ os) r =
    o.api_version == version && o.kind == kind && record { namespace = ns; name = o.name } == r
    || is_owned_by version kind ns os r

is_queued-enqueue_owners :
    (version kind ns : String) (d : ℕ) (random : ℕ → ℕ) (os : List OwnerReference)
    (reqs : List ObjectKey) (q : Queues) (r : ObjectKey)
    → (contains r reqs ≡ true → is_queued r q.queue ≡ true)
    → is_queued r (enqueue_owners version kind ns d random os reqs q).queue
      ≡ (is_queued r q.queue || is_owned_by version kind ns os r)
unfolding enqueue_owners is_owned_by contains
is_queued-enqueue_owners version kind ns d random [] reqs q r h = ground arith
is_queued-enqueue_owners version kind ns d random (o ∷ os) reqs q r h =
    let key : ObjectKey = record { namespace = ns; name = o.name } in
    let later : ℕ → ℕ = λ i. random (suc i) in
    let added = add_after key d (random 0) q in
    let one = is_queued-add_after r key d (random 0) q in
    ground (
      arith,
      one,
      h,
      object_key.same_iff key r,
      is_queued-enqueue_owners version kind ns d later os reqs q r h,
      is_queued-enqueue_owners version kind ns d later os (key ∷ reqs) added r
          (λ m. ground (arith, one, h)),
    )

-- The deletion of a Secret queues exactly its owners of the kind that the handler watches for.
pub is_queued-on_secret_deleted :
    (version kind : String) (max : ℕ) (random : ℕ → ℕ) (ns : String) (os : List OwnerReference)
    (q : Queues) (r : ObjectKey)
    → is_queued r (on_secret_deleted version kind max random ns os q).queue
      ≡ (is_queued r q.queue || is_owned_by version kind ns os r)
unfolding on_secret_deleted contains
is_queued-on_secret_deleted version kind max random ns os q r =
    is_queued-enqueue_owners version kind ns (max_requeue_after max) random os [] q r
      (λ m. absurd (ground arith))
