-- ===== src/Helpers/Exists/Examples.antt =====
-- Storing a Secret in memory, where another version of it stands.
use vault_secrets_operator.Base.{◌≡◌, ◌≢◌, refl, true, Option, none, [], ◌∷◌, text_key}
use vault_secrets_operator.Base.Map
use vault_secrets_operator.Api.Names.{ObjectKey, object_key}
use vault_secrets_operator.Api.Secret.{Secret, ApiError}
use vault_secrets_operator.Kube.Memory.{Memory, memory, find, memory-IsFaithful, insert, erase}
use vault_secrets_operator.Helpers.Exists.{store_immutable_secret, delete_secret, create_once}
use vault_secrets_operator.Helpers.Exists.Store.{
  IsStored, IsRetry, attempts, store_immutable_secret-IsStored,
}

abbrev secret : Secret
secret = record {
  key = record { namespace = "vso"; name = "cache" };
  labels = [];
  annotations = [];
  owner_references = [];
  resource_version = "";
  generation = 0;
  type = "";
  immutable = true;
  contents = ("key", 1 ∷ []) ∷ [];
}

abbrev cluster : Memory
cluster = (secret.key, record secret { contents = [] }) ∷ []

-- A retry that gives up after the second call.
abbrev twice : (Memory → Memory × Option ApiError) → Memory → Memory × Option ApiError
twice op c = attempts memory find memory-IsFaithful 1 op c

twice-IsRetry : IsRetry memory find memory-IsFaithful twice
unfolding IsRetry
twice-IsRetry op c = (1, refl)

store_immutable_secret-IsStored_example :
    ((key : ObjectKey)
      → secret.key ≢ key
      → find key (store_immutable_secret memory twice secret cluster).0 ≡ find key cluster)
    × ((store_immutable_secret memory twice secret cluster).1 ≡ none
        → IsStored memory find memory-IsFaithful secret
            (store_immutable_secret memory twice secret cluster).0)
store_immutable_secret-IsStored_example =
    store_immutable_secret-IsStored memory find memory-IsFaithful twice twice-IsRetry secret cluster

replaced : store_immutable_secret memory twice secret cluster ≡ ((secret.key, secret) ∷ [], none)
unfolding store_immutable_secret delete_secret create_once insert erase attempts object_key Map.get
    Map.put Map.delete
replaced = refl
