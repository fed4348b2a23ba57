-- ===== src/Controllers/EventHandlers.antt =====
-- controllers/eventhandlers.go: which events queue which resources.
pub mod Queued
mod Examples
use vault_secrets_operator.Base.{
  ℕ, suc, ◌≡◌, String, Bool, true, false, not, ◌&&◌, ◌||◌, Option, none, some, List, [], ◌∷◌, ◌++◌,
  arith, ◌==◌, text_key, nat_eq, ltb, if◌then◌else◌, contains, is_some,
}
use vault_secrets_operator.Base.Map.{get-put}
use vault_secrets_operator.Api.Names.{ObjectKey, object_key}
use vault_secrets_operator.Api.Secret.{OwnerReference}
use vault_secrets_operator.Common.Errors.{Error}
use vault_secrets_operator.Controllers.Horizon.{compute_max_jitter}
use vault_secrets_operator.Controllers.Registry
use vault_secrets_operator.Controllers.Registry.{SyncRegistry}
use vault_secrets_operator.Controllers.References
use vault_secrets_operator.Controllers.References.{RefCache, ResourceKind}

-- What the handlers change: `queue` is the work queue, with the delay of each request, and grows at
-- its end.
pub record Queues : Type 0 where
  pub references : RefCache
  pub sync_registry : SyncRegistry
  pub queue : List (ObjectKey × ℕ)

-- A handler's maxRequeueAfter, of which 0 stands for a second.
unfoldable pub max_requeue_after : ℕ → ℕ
max_requeue_after d = if nat_eq d 0 then 1_000_000_000 else d

-- q.AddAfter with a jitter; the random numbers are those of the requests to come.
unfoldable pub add_after : ObjectKey → ℕ → ℕ → Queues → Queues
add_after key d random q = record q {
  queue = q.queue ++ ((key, (compute_max_jitter d random).1) ∷ []);
}

-- enqueueRefRequestsHandler; `syncs` says whether it has a SyncRegistry.
pub record RefHandler : Type 0 where
  pub kind : ResourceKind
  pub syncs : Bool
  pub max : ℕ
  pub validator : ObjectKey → Option Error

-- One round of the loop over the referrers; `reqs` are those that were queued.
unfoldable pub enqueue_ref : Bool → ℕ → ℕ → ObjectKey → List ObjectKey → Queues → Queues
enqueue_ref syncs d random k reqs q =
    let q' = if syncs then record q { sync_registry = Registry.add k q.sync_registry } else q in
    if contains k reqs then q' else add_after k d random q'

unfoldable pub enqueue_refs : Bool → ℕ → (ℕ → ℕ) → List ObjectKey → List ObjectKey → Queues → Queues
enqueue_refs syncs d random [] reqs q = q
enqueue_refs syncs d random (k ∷ ks) reqs q =
    enqueue_refs syncs d (λ i. random (suc i)) ks (k ∷ reqs)
      (enqueue_ref syncs d (random 0) k reqs q)

-- enqueue
unfoldable pub enqueue : RefHandler → (ℕ → ℕ) → ObjectKey → Queues → Queues
enqueue h random key q =
    let ks = References.get h.kind key q.references in
    let all = enqueue_refs h.syncs (max_requeue_after h.max) random ks [] q in
    if References.is_empty ks then q else if is_some (h.validator key) then q else all

-- Create
abbrev pub on_create : RefHandler → (ℕ → ℕ) → ObjectKey → Queues → Queues
on_create = enqueue

-- Update, for two generations.
unfoldable pub on_update : RefHandler → (ℕ → ℕ) → ObjectKey → ℕ → ℕ → Queues → Queues
on_update h random key old new q = if nat_eq new old then q else enqueue h random key q

-- Delete
unfoldable pub on_delete : RefHandler → ObjectKey → Queues → Queues
on_delete h key q = record q { references = (References.prune h.kind key q.references).0 }

-- The loop of enqueueOnDeletionRequestHandler over the owner references of a Secret.
unfoldable pub enqueue_owners :
    String → String → String → ℕ → (ℕ → ℕ) → List OwnerReference → List ObjectKey → Queues → Queues
enqueue_owners version kind ns d random [] reqs q = q
enqueue_owners version kind ns d random (o ∷ os) reqs q =
    let key : ObjectKey = record { namespace = ns; name = o.name } in
    let rest =
      λ (i : List ObjectKey). enqueue_owners version kind ns d (λ i. random (suc i)) os i in
    if o.api_version == version && o.kind == kind
    then (if contains key reqs
        then rest reqs q
        else rest (key ∷ reqs) (add_after key d (random 0) q))
    else rest reqs q

-- Delete of enqueueOnDeletionRequestHandler, for the namespace and the owners of the Secret.
unfoldable pub on_secret_deleted :
    String → String → ℕ → (ℕ → ℕ) → String → List OwnerReference → Queues → Queues
on_secret_deleted version kind max random ns owners q =
    enqueue_owners version kind ns (max_requeue_after max) random owners [] q

-- Generic of enqueueDelayingSyncEventHandler. Add is AddAfter without a delay.
unfoldable pub on_generic : ℕ → ℕ → Option ObjectKey → Queues → Queues
on_generic jitter random none q = q
on_generic jitter random (some key) q = add_after key jitter random q

-- Whether a request is in the queue.
unfoldable pub is_queued : ObjectKey → List (ObjectKey × ℕ) → Bool
is_queued key [] = false
is_queued key ((k, _) ∷ q) = k == key || is_queued key q
