-- ===== src/Kube/Client.antt =====
-- controller-runtime's client for Secrets, which the operator does not implement: its operations on
-- the state of the cluster, and what is documented of them. Nobody else writes between two calls.
use vault_secrets_operator.Base.{String, ◌≡◌, ◌≢◌, Option, none, some, List, All}
use vault_secrets_operator.Base.Map.{Map}
use vault_secrets_operator.Base.Result.{Result, ok, err}
use vault_secrets_operator.Api.Names.{ObjectKey}
use vault_secrets_operator.Api.Secret.{Secret, ApiError, not_found}

-- `create` and `update` return the object as the server stored it.
pub record Client : Type 1 where
  pub Cluster : Type 0
  pub get : ObjectKey → Cluster → Result ApiError Secret
  pub list : String → Map String String → Cluster → Result ApiError (List Secret)
  pub create : Secret → Cluster → Cluster × Result ApiError Secret
  pub update : Secret → Cluster → Cluster × Result ApiError Secret
  pub delete : ObjectKey → Cluster → Cluster × Option ApiError

-- What a client writes is what the server stores, but for the resource version and the generation.
pub record SameContent (s t : Secret) : Type 0 where
  pub key : s.key ≡ t.key
  pub labels : s.labels ≡ t.labels
  pub annotations : s.annotations ≡ t.annotations
  pub owner_references : s.owner_references ≡ t.owner_references
  pub type : s.type ≡ t.type
  pub contents : s.contents ≡ t.contents

-- `stored` is the Secret under a key. A call that fails may have been carried out or not, but it
-- touches no other key, and `create` never replaces what is stored.
pub record IsFaithful (k : Client) (stored : ObjectKey → k.Cluster → Option Secret) : Type 0 where
  pub get_ok :
      (key : ObjectKey) (c : k.Cluster) (s : Secret)
      → k.get key c ≡ ok s
      → (stored key c ≡ some s) × (s.key ≡ key)
  pub get_not_found :
      (key : ObjectKey) (c : k.Cluster) → k.get key c ≡ err not_found → stored key c ≡ none
  pub list_ok :
      (ns : String) (labels : Map String String) (c : k.Cluster) (ss : List Secret)
      → k.list ns labels c ≡ ok ss
      → All (λ s. (stored s.key c ≡ some s) × (s.key.namespace ≡ ns)) ss
  pub create_frame :
      (s : Secret) (key : ObjectKey) (c : k.Cluster)
      → s.key ≢ key
      → stored key (k.create s c).0 ≡ stored key c
  pub create_keeps :
      (s t : Secret) (c : k.Cluster)
      → stored s.key c ≡ some t
      → stored s.key (k.create s c).0 ≡ some t
  pub create_ok :
      (s t : Secret) (c : k.Cluster)
      → (k.create s c).1 ≡ ok t
      → (stored s.key (k.create s c).0 ≡ some t) × SameContent s t
  pub update_frame :
      (s : Secret) (key : ObjectKey) (c : k.Cluster)
      → s.key ≢ key
      → stored key (k.update s c).0 ≡ stored key c
  pub update_ok :
      (s t : Secret) (c : k.Cluster)
      → (k.update s c).1 ≡ ok t
      → (stored s.key (k.update s c).0 ≡ some t) × SameContent s t
  pub delete_frame :
      (d key : ObjectKey) (c : k.Cluster) → d ≢ key → stored key (k.delete d c).0 ≡ stored key c
