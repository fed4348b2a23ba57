-- ===== src/Controllers/Finalizers/Removed.antt =====
-- What RemoveAllFinalizers leaves of a resource.
use vault_secrets_operator.Base.{
  ◌≡◌, refl, String, true, Option, none, some, List, [], ◌∷◌, arith, ◌==◌, text_key, if◌then◌else◌,
  contains,
}
use vault_secrets_operator.Base.Map
use vault_secrets_operator.Base.Map.{Map, get-put, get-delete, contains-keys}
use vault_secrets_operator.Api.Names.{ObjectKey, object_key}
use vault_secrets_operator.Api.Secret.{ApiError}
use vault_secrets_operator.Controllers.Finalizers.{
  Resource, Resources, without, update, remove_finalizers, list_in, remove_from,
}

-- What stands in place of a listed resource.
abbrev left : String → Option ApiError → Resource → Option Resource → Option Resource
left f fault x before =
    if contains f x.finalizers
    then elim fault [
      | some _ ↦ before
      | none ↦ elim (without f x).finalizers [
        | [] ↦ if x.deleting then none else some (without f x)
        | _ ∷ _ ↦ some (without f x)
      ]
    ]
    else before

get-update :
    (key k : ObjectKey) (f : String) (x : Resource) (m : Resources)
    → Map.get k (update key (without f x) m) ≡ (
        if key == k
        then elim (without f x).finalizers [
          | [] ↦ if x.deleting then none else some (without f x)
          | _ ∷ _ ↦ some (without f x)
        ]
        else Map.get k m)
unfolding update without
get-update key k f x m = ground (arith, get-put key k (without f x) m, get-delete key k m)

-- For each key the loop changes what was listed under it and had the finalizer, unless the update
-- is refused, and nothing else.
get-remove_finalizers :
    (f : String) (fault : ObjectKey → Option ApiError) (items : List (ObjectKey × Resource))
    (m : Resources) (k : ObjectKey)
    → Map.has_unique_keys items ≡ true
    → Map.get k (remove_finalizers f fault items m)
      ≡ elim (Map.get k items) [ none ↦ Map.get k m | some x ↦ left f (fault k) x (Map.get k m) ]
unfolding remove_finalizers Map.get Map.has_unique_keys Map.keys
get-remove_finalizers f fault [] m k h = refl
get-remove_finalizers f fault ((key, x) ∷ items) m k h =
    let updated = update key (without f x) m in
    ground (
      arith,
      get-remove_finalizers f fault items m k,
      get-remove_finalizers f fault items updated k,
      get-update key k f x m,
      contains-keys key items,
      object_key.same_iff key k,
    )

get-list_in :
    (ns : String) (m : Resources) (k : ObjectKey)
    → Map.get k (list_in ns m) ≡ (if k.namespace == ns then Map.get k m else none)
unfolding list_in Map.get
get-list_in ns [] k = ground arith
get-list_in ns ((key, x) ∷ m) k = ground (arith, get-list_in ns m k, object_key.same_iff key k)

list_in-has_unique_keys :
    (ns : String) (m : Resources)
    → Map.has_unique_keys m ≡ true
    → Map.has_unique_keys (list_in ns m) ≡ true
unfolding list_in Map.has_unique_keys Map.keys
list_in-has_unique_keys ns [] h = refl
list_in-has_unique_keys ns ((key, x) ∷ m) h = ground (
  arith,
  list_in-has_unique_keys ns m,
  get-list_in ns m key,
  contains-keys key m,
  contains-keys key (list_in ns m),
)

-- In the operator's namespace every resource of the kind is left without the finalizer, unless its
-- update is refused; the resources of other namespaces stay as they are.
get-remove_from :
    (ns f : String) (fault : ObjectKey → Option ApiError) (m : Resources) (k : ObjectKey)
    (x : Resource)
    → Map.has_unique_keys m ≡ true
    → Map.get k m ≡ some x
    → Map.get k (remove_from ns f none fault m)
      ≡ (if k.namespace == ns then left f (fault k) x (some x) else some x)
unfolding remove_from
get-remove_from ns f fault m k x h found = ground (
  arith,
  get-remove_finalizers f fault (list_in ns m) m k (list_in-has_unique_keys ns m h),
  get-list_in ns m k,
)
