-- ===== src/Controllers/Finalizers.antt =====
-- controllers/common.go: RemoveAllFinalizers, with which the operator leaves the cluster.
mod Removed
use vault_secrets_operator.Base.{
  String, Bool, not, ◌&&◌, Option, none, some, List, [], ◌∷◌, ◌==◌, text_key, if◌then◌else◌,
  contains, select,
}
use vault_secrets_operator.Base.Map
use vault_secrets_operator.Base.Map.{Map}
use vault_secrets_operator.Api.Names.{ObjectKey, object_key}
use vault_secrets_operator.Api.Secret.{ApiError}
use vault_secrets_operator.Controllers.DynamicSecret
use vault_secrets_operator.Controllers.PkiSecret

-- What is read of a resource, and changed in it.
pub record Resource : Type 0 where
  pub deleting : Bool
  pub finalizers : List String

abbrev pub Resources : Type 0
Resources = Map ObjectKey Resource

-- controllerutil.RemoveFinalizer
unfoldable pub without : String → Resource → Resource
without f x = record x { finalizers = select (λ g. not (g == f)) x.finalizers }

-- c.Update: a resource that is being deleted goes with its last finalizer.
unfoldable pub update : ObjectKey → Resource → Resources → Resources
update key x m = elim x.finalizers [
  | [] ↦ if x.deleting then Map.delete key m else Map.put key x m
  | _ ∷ _ ↦ Map.put key x m
]

-- The loop over a list, for one finalizer; `fault` is the error of the API server for an update,
-- which is only logged.
unfoldable pub remove_finalizers :
    String → (ObjectKey → Option ApiError) → List (ObjectKey × Resource) → Resources → Resources
remove_finalizers f fault [] m = m
remove_finalizers f fault ((key, x) ∷ items) m =
    let updated : Resources = elim (fault key) [ some _ ↦ m | none ↦ update key (without f x) m ] in
    remove_finalizers f fault items (if contains f x.finalizers then updated else m)

-- c.List in a namespace.
unfoldable pub list_in : String → Resources → List (ObjectKey × Resource)
list_in ns [] = []
list_in ns ((key, x) ∷ m) =
    let rest = list_in ns m in if key.namespace == ns then (key, x) ∷ rest else rest

-- The resources of one kind; a list that the API server refuses is empty.
unfoldable pub remove_from :
    String → String → Option ApiError → (ObjectKey → Option ApiError) → Resources → Resources
remove_from ns f refused fault m = elim refused [
  | some _ ↦ remove_finalizers f fault [] m
  | none ↦ remove_finalizers f fault (list_in ns m) m
]

-- The kinds that RemoveAllFinalizers goes through.
pub record Managed : Type 0 where
  pub vault_auths : Resources
  pub vault_connections : Resources
  pub vault_dynamic_secrets : Resources
  pub vault_pki_secrets : Resources

-- The errors of the API server for one kind.
pub record Refusals : Type 0 where
  pub list : Option ApiError
  pub update : ObjectKey → Option ApiError

-- The finalizers are those of the four controllers; `ns` is the namespace of the operator.
unfoldable pub remove_all_finalizers :
    String → Refusals → Refusals → Refusals → Refusals → Managed → Managed
remove_all_finalizers ns auths connections dynamic pki m = record {
  vault_auths =
      remove_from ns "vaultauth.secrets.hashicorp.com/finalizer" auths.list auths.update
        m.vault_auths;
  vault_connections =
      remove_from ns "vaultconnection.secrets.hashicorp.com/finalizer" connections.list
        connections.update m.vault_connections;
  vault_dynamic_secrets =
      remove_from ns DynamicSecret.finalizer dynamic.list dynamic.update m.vault_dynamic_secrets;
  vault_pki_secrets = remove_from ns PkiSecret.finalizer pki.list pki.update m.vault_pki_secrets;
}
