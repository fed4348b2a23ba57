-- ===== src/Helpers/Sync/Ownership.antt =====
-- Ownership and syncs: the check is exact, what is not owned is refused, and what a sync has created
-- is owned.
use mathlib.Core.Path.{subst}
use vault_secrets_operator.Base.{
  ◌≡◌, ◌≢◌, ◌↔◌, refl, sym, String, Bool, true, false, ◌||◌, not, Option, none, some, List, [], ◌∷◌,
  arith, ◌==◌, text_key, ==_ne, eq_iff, ◌⊎◌, inl, inr, Bool-cases, Option-cases, is_some,
}
use vault_secrets_operator.Base.Map
use vault_secrets_operator.Base.Map.{copy_into, Map}
use vault_secrets_operator.Base.Result.{ok}
use vault_secrets_operator.Api.Names.{ObjectKey}
use vault_secrets_operator.Api.Secret.{Secret, OwnerReference, owner_reference_key, Bytes}
use vault_secrets_operator.Api.Destination.{Destination}
use vault_secrets_operator.Api.Syncable.{Object, meta_of}
use vault_secrets_operator.Kube.Client.{Client, IsFaithful}
use vault_secrets_operator.Common.Refs.{validate_object_key}
use vault_secrets_operator.Common.Metadata.{SyncableSecretMetaData, new_syncable_secret_meta_data}
use vault_secrets_operator.Helpers.Exists.{get_secret_exists}
use vault_secrets_operator.Helpers.Owner.{
  owner_labels_for_obj, has_owner_labels, same_references, check_secret_is_owned_by_obj, is_owned,
}
use vault_secrets_operator.Helpers.Sync.{
  owner_reference, destination_key, secret_labels, ownership_errors, sync_owned, sync_found,
  sync_to, sync_secret,
}
use vault_secrets_operator.Helpers.Sync.Written.{sync_secret_delivers}

-- The three labels of the operator, with their values.
pub record HasOwnerLabels (labels : Map String String) : Type 0 where
  pub managed_by : Map.get "app.kubernetes.io/managed-by" labels ≡ some "hashicorp-vso"
  pub app_name : Map.get "app.kubernetes.io/name" labels ≡ some "vault-secrets-operator"
  pub component : Map.get "app.kubernetes.io/component" labels ≡ some "secret-sync"

same_references_iff : (rs qs : List OwnerReference) → (same_references rs qs ≡ true) ↔ (rs ≡ qs)
unfolding same_references
same_references_iff [] [] = (λ _. refl, λ _. refl)
same_references_iff [] (q ∷ qs) = ground arith
same_references_iff (r ∷ rs) [] = ground arith
same_references_iff (r ∷ rs) (q ∷ qs) =
    ground (arith, same_references_iff rs qs, owner_reference_key.same_iff r q)

abbrev or_text : Option String → String
or_text none = ""
or_text (some x) = x

has_owner_labels_iff : (s : Secret) → (has_owner_labels s ≡ true) ↔ HasOwnerLabels s.labels
unfolding has_owner_labels
has_owner_labels_iff s =
    let value : String → String = λ l. or_text (Map.get l s.labels) in
    ground (
      arith,
      eq_iff (value "app.kubernetes.io/managed-by") "hashicorp-vso",
      eq_iff (value "app.kubernetes.io/name") "vault-secrets-operator",
      eq_iff (value "app.kubernetes.io/component") "secret-sync",
    )

-- The check finds no error exactly if the Secret has the three owner labels with the operator's
-- values and its owner references are exactly the given ones, of which there is at least one.
pub is_owned_iff :
    (s : Secret) (r : OwnerReference) (rs : List OwnerReference)
    → (is_owned s (r ∷ rs) ≡ true) ↔ (HasOwnerLabels s.labels × (s.owner_references ≡ r ∷ rs))
unfolding check_secret_is_owned_by_obj has_owner_labels
is_owned_iff s r rs =
    ground (arith, has_owner_labels_iff s, same_references_iff s.owner_references (r ∷ rs))

owner_labels-get :
    (obj : Object) (d : Destination)
    → ((meta_of obj).uid == "") ≡ false
    → HasOwnerLabels (secret_labels obj d)
unfolding secret_labels owner_labels_for_obj copy_into Map.get Map.put Map.delete
owner_labels-get obj d e = record {
  managed_by = rw (e, owner_labels_for_obj);
  app_name = rw (e, owner_labels_for_obj);
  component = rw (e, owner_labels_for_obj);
}

is_owned_not :
    (s : Secret) (r : OwnerReference)
    → ¬ (HasOwnerLabels s.labels × (s.owner_references ≡ r ∷ []))
    → is_owned s (r ∷ []) ≡ false
is_owned_not s r foreign = elim (Bool-cases (is_owned s (r ∷ []))) [
  | inl owned ↦ absurd (foreign ((is_owned_iff s r []).0 owned))
  | inr other ↦ other
]

-- What may not be overwritten without the check.
guard_holds :
    (d : Destination) (t : Secret)
    → (d.overwrite ≡ false) ⊎ HasOwnerLabels t.labels
    → (not d.overwrite || has_owner_labels t) ≡ true
guard_holds d t (inl never) = ground arith
guard_holds d t (inr labelled) = ground (arith, (has_owner_labels_iff t).1 labelled)

module _ (k : Client) (gvk : Object → Option (String × String)) where
  -- A Secret that stands at the destination of a resource with `create`, and that may not be
  -- overwritten or has the three owner labels, is refused unless it has the labels and the resource
  -- as its only owner: the sync returns an error, and the cluster is as it was.
  pub sync_secret_refuses :
      (prune : Bool) (obj : Object) (meta : SyncableSecretMetaData) (contents : Map String Bytes)
      (t : Secret) (c : k.Cluster)
      → new_syncable_secret_meta_data obj ≡ ok meta
      → get_secret_exists k (destination_key obj meta.destination) c ≡ ok (some t)
      → meta.destination.create ≡ true
      → (meta.destination.overwrite ≡ false) ⊎ HasOwnerLabels t.labels
      → ¬ (
          HasOwnerLabels t.labels
          × (t.owner_references ≡ owner_reference meta.api_version meta.kind (meta_of obj) ∷ []))
      → ((sync_secret k gvk prune obj contents c).0 ≡ c)
        × (is_some (sync_secret k gvk prune obj contents c).1 ≡ true)
  unfolding sync_secret sync_to sync_found sync_owned ownership_errors
  sync_secret_refuses prune obj meta contents t c m g created guarded foreign =
      let guard = guard_holds meta.destination t guarded in
      let other =
        is_owned_not t (owner_reference meta.api_version meta.kind (meta_of obj)) foreign in
      elim (Option-cases (validate_object_key (destination_key obj meta.destination))) [
        | inl v ↦ (ground arith, ground arith)
        | inr (x, v) ↦ (ground arith, ground arith)
      ]

module _ (k : Client) (gvk : Object → Option (String × String))
    (stored : ObjectKey → k.Cluster → Option Secret) (f : IsFaithful k stored) where
  -- After a sync with `create` that returns no error, the Secret at the destination has the three
  -- owner labels, whatever labels the destination asks for, and the resource as its only owner, if
  -- the resource has a UID.
  pub sync_secret_owns :
      (prune : Bool) (obj : Object) (meta : SyncableSecretMetaData) (contents : Map String Bytes)
      (c : k.Cluster)
      → (meta_of obj).uid ≢ ""
      → new_syncable_secret_meta_data obj ≡ ok meta
      → meta.destination.create ≡ true
      → (sync_secret k gvk prune obj contents c).1 ≡ none
      → (t : Secret) × (stored
            (destination_key obj meta.destination)
            (sync_secret k gvk prune obj contents c).0
          ≡ some t)
        × HasOwnerLabels t.labels
        × (t.owner_references ≡ owner_reference meta.api_version meta.kind (meta_of obj) ∷ [])
  sync_secret_owns prune obj meta contents c u m created done =
      let (t, at, _, rest) = sync_secret_delivers k gvk stored f obj meta contents prune c m done in
      let i = rest created in
      (
        t,
        at,
        subst HasOwnerLabels (sym i.labels)
            (owner_labels-get obj meta.destination (==_ne (meta_of obj).uid "" u)),
        i.owner_references,
      )
