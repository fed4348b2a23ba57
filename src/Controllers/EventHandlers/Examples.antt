-- ===== src/Controllers/EventHandlers/Examples.antt =====
-- Two applications name a transformation that changes, and a Secret that goes.
use vault_secrets_operator.Base.{
  ℕ, ◌+◌, ◌≡◌, refl, text_key, true, not, ◌&&◌, ◌||◌, none, [], ◌∷◌, nat_eq, is_some, contains,
}
use vault_secrets_operator.Base.Map
use vault_secrets_operator.Api.Names.{ObjectKey, object_key}
use vault_secrets_operator.Api.Secret.{OwnerReference}
use vault_secrets_operator.Controllers.Horizon.{
  round_from, max_horizon, jitter_below, compute_max_jitter_with_percent, compute_max_jitter,
}
use vault_secrets_operator.Controllers.Registry
use vault_secrets_operator.Controllers.References
use vault_secrets_operator.Controllers.References.{
  secret_transformation, kind_key, scoped, set, ref_set,
}
use vault_secrets_operator.Controllers.References.Scopes.{refers}
use vault_secrets_operator.Controllers.References.Tight.{set_call, history, history-IsWellFormed}
use vault_secrets_operator.Controllers.EventHandlers.{
  Queues, max_requeue_after, add_after, RefHandler, enqueue_ref, enqueue_refs, enqueue, on_update,
  on_secret_deleted, is_queued,
}
use vault_secrets_operator.Controllers.EventHandlers.Queued.{
  is_owned_by, is_queued-on_update, is_queued-on_secret_deleted,
}

abbrev app1 : ObjectKey
app1 = record { namespace = "apps"; name = "one" }

abbrev app2 : ObjectKey
app2 = record { namespace = "apps"; name = "two" }

abbrev transformation : ObjectKey
transformation = record { namespace = "shared"; name = "transform" }

abbrev queues : Queues
queues = record {
  references = history (
      set_call secret_transformation app2 (transformation ∷ [])
      ∷ set_call secret_transformation app1 (transformation ∷ [])
      ∷ []);
  sync_registry = [];
  queue = [];
}

abbrev handler : RefHandler
handler = record { kind = secret_transformation; syncs = true; max = 0; validator = λ k. none }

abbrev randoms : ℕ → ℕ
randoms i = 123_456_789 + i

-- A tenth of a second bounds the delay.
both_queued :
    (on_update handler randoms transformation 1 2 queues).queue
    ≡ (app2, 23_456_789) ∷ (app1, 23_456_790) ∷ []
unfolding on_update enqueue enqueue_refs enqueue_ref add_after max_requeue_after References.get
    scoped set ref_set References.referrers history Map.get Map.put Map.delete object_key kind_key
    Registry.add contains compute_max_jitter compute_max_jitter_with_percent jitter_below
    max_horizon round_from
both_queued = refl

is_queued-on_update_example :
    let q = on_update handler randoms transformation 1 2 queues in
    let wakes =
      not (nat_eq 2 1)
      && not (is_some (handler.validator transformation))
      && refers queues.references handler.kind app1 transformation in
    (is_queued app1 q.queue ≡ (is_queued app1 queues.queue || wakes))
    × (Registry.has app1 q.sync_registry
        ≡ (Registry.has app1 queues.sync_registry || handler.syncs && wakes))
    × (q.references ≡ queues.references)
is_queued-on_update_example =
    is_queued-on_update handler randoms transformation app1 1 2 queues (history-IsWellFormed _)

abbrev owner : OwnerReference
owner = record {
  api_version = "secrets.hashicorp.com/v1beta1";
  kind = "VaultStaticSecret";
  name = "one";
  uid = "1";
}

is_queued-on_secret_deleted_example :
    is_queued app1
      (on_secret_deleted owner.api_version owner.kind 0 randoms "apps" (owner ∷ []) queues).queue
    ≡ (is_queued app1 queues.queue
        || is_owned_by owner.api_version owner.kind "apps" (owner ∷ []) app1)
is_queued-on_secret_deleted_example =
    is_queued-on_secret_deleted owner.api_version owner.kind 0 randoms "apps" (owner ∷ []) queues
      app1
