-- ===== src/Controllers/DynamicSecret/Callback.antt =====
-- controllers/vaultdynamicsecret_controller.go: vaultClientCallback, which is called when a client of
-- Vault is done or leaves the cache.
use vault_secrets_operator.Base.{
  ◌≡◌, String, Bool, true, false, not, ◌&&◌, ◌||◌, List, [], ◌∷◌, arith, ◌==◌, text_key,
  if◌then◌else◌, contains, inl, inr, Bool-cases,
}
use vault_secrets_operator.Base.Map.{get-put}
use vault_secrets_operator.Base.Result.{Result, ok, err}
use vault_secrets_operator.Api.Names.{ObjectKey, object_key}
use vault_secrets_operator.Api.Secret.{ApiError}
use vault_secrets_operator.Api.DynamicSecret.{DynamicSecret}
use vault_secrets_operator.Common.Errors.{Error}
use vault_secrets_operator.Vault.CacheKey.Clone.{same_parent}
use vault_secrets_operator.Controllers.Registry
use vault_secrets_operator.Controllers.Registry.{SyncRegistry}

-- Whether a resource was synced with a client of the same parent.
unfoldable pub is_of_client : String → DynamicSecret → Bool
is_of_client cache_key o =
    if o.status.client_meta.cache_key == ""
    then false
    else elim (same_parent o.status.client_meta.cache_key cache_key) [ ok b ↦ b | err _ ↦ false ]

-- The loop over the resources: `reqs` are those that were sent to the channel. The registry, and the
-- events in their order.
unfoldable pub request_items :
    String → List DynamicSecret → List ObjectKey → SyncRegistry → SyncRegistry × List ObjectKey
request_items cache_key [] reqs registry = (registry, [])
request_items cache_key (o ∷ os) reqs registry =
    let key = o.meta.key in
    let (more, events) = request_items cache_key os (key ∷ reqs) (Registry.add key registry) in
    let skipped = request_items cache_key os reqs registry in
    if is_of_client cache_key o && not (contains key reqs) then (more, key ∷ events) else skipped

-- The cache key of the client, and the resources in the namespace of its credential provider; an
-- error in either ends the callback.
unfoldable pub vault_client_callback :
    Result Error String
    → Result ApiError (List DynamicSecret)
    → SyncRegistry
    → SyncRegistry × List ObjectKey
vault_client_callback (err _) items registry = (registry, [])
vault_client_callback (ok cache_key) (err _) registry = (registry, [])
vault_client_callback (ok cache_key) (ok items) registry = request_items cache_key items [] registry

-- A resource that is in the list, for a test.
unfoldable pub is_listed : (DynamicSecret → Bool) → ObjectKey → List DynamicSecret → Bool
is_listed p key [] = false
is_listed p key (o ∷ os) = (p o && o.meta.key == key) || is_listed p key os

has-add :
    (j k : ObjectKey) (registry : SyncRegistry)
    → Registry.has j (Registry.add k registry) ≡ (k == j || Registry.has j registry)
unfolding Registry.has Registry.add
has-add j k registry = ground (arith, get-put k j tt registry)

has-request_items :
    (cache_key : String) (key : ObjectKey) (items : List DynamicSecret) (reqs : List ObjectKey)
    (registry : SyncRegistry)
    → (contains key reqs ≡ true → Registry.has key registry ≡ true)
    → Registry.has key (request_items cache_key items reqs registry).0
      ≡ (Registry.has key registry || is_listed (is_of_client cache_key) key items)
unfolding request_items is_listed contains
has-request_items cache_key key [] reqs registry h = ground arith
has-request_items cache_key key (o ∷ os) reqs registry h =
    let k = o.meta.key in
    let same = object_key.same_iff k key in
    elim (Bool-cases (is_of_client cache_key o && not (contains k reqs))) [
      | inl sent ↦
          let here = has-add key k registry in
          let rest =
            has-request_items cache_key key os (k ∷ reqs) (Registry.add k registry)
              (λ c. ground (arith, here, h)) in
          ground (arith, rest, here, same)
      | inr skipped ↦ ground (arith, has-request_items cache_key key os reqs registry h, h, same)
    ]

-- After a client is done, the SyncRegistry holds exactly what it held before and the listed
-- resources that were synced with a client of the same parent.
pub has-vault_client_callback :
    (cache_key : String) (key : ObjectKey) (items : List DynamicSecret) (registry : SyncRegistry)
    → Registry.has key (vault_client_callback (ok cache_key) (ok items) registry).0
      ≡ (Registry.has key registry || is_listed (is_of_client cache_key) key items)
unfolding vault_client_callback contains
has-vault_client_callback cache_key key items registry =
    has-request_items cache_key key items [] registry (λ h. absurd (ground arith))
