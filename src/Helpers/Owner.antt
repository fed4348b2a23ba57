-- ===== src/Helpers/Owner.antt =====
-- helpers/secrets.go: the labels and owner references by which the operator knows its own Secrets.
use vault_secrets_operator.Base.{
  String, Bool, true, false, none, some, List, [], ◌∷◌, ◌++◌, ◌==◌, text_key, if◌then◌else◌,
}
use vault_secrets_operator.Base.Map
use vault_secrets_operator.Base.Map.{Map, copy_into}
use vault_secrets_operator.Base.Result.{Result, ok, err}
use vault_secrets_operator.Api.Secret.{Secret, OwnerReference, owner_reference_key}
use vault_secrets_operator.Api.Syncable.{Meta}
use vault_secrets_operator.Common.Errors.{
  Error, empty_uid, OwnershipError, invalid_owner_label, invalid_owner_references,
  no_owner_references, not_the_owner,
}

abbrev pub owner_labels : Map String String
owner_labels =
    ("app.kubernetes.io/managed-by", "hashicorp-vso")
    ∷ ("app.kubernetes.io/name", "vault-secrets-operator")
    ∷ ("app.kubernetes.io/component", "secret-sync")
    ∷ []

abbrev pub label_owner_ref_uid : String
label_owner_ref_uid = "secrets.hashicorp.com/vso-ownerRefUID"

unfoldable pub owner_labels_for_obj : Meta → Result Error (Map String String)
owner_labels_for_obj m =
    if m.uid == ""
    then err (empty_uid m.key)
    else ok (Map.put label_owner_ref_uid m.uid (copy_into owner_labels []))

unfoldable pub matching_labels_for_obj : Meta → Result Error (Map String String)
unfolding owner_labels_for_obj
matching_labels_for_obj m = elim (owner_labels_for_obj m) [
  | err e ↦ err e
  | ok l ↦
      if m.uid == ""
      then err (empty_uid m.key)
      else ok (Map.put label_owner_ref_uid m.uid (copy_into l []))
]

-- The loop of CheckOwnerLabels over the expected labels.
unfoldable pub check_labels : Map String String → Map String String → List OwnershipError
check_labels [] labels = []
check_labels ((k, v) ∷ expected) labels =
    let rest = check_labels expected labels in
    elim (Map.get k labels) [
      | none ↦ invalid_owner_label k false ∷ rest
      | some o ↦ if o == v then rest else invalid_owner_label k true ∷ rest
    ]

unfoldable pub check_owner_labels : Secret → List OwnershipError
unfolding check_labels
check_owner_labels o = check_labels owner_labels o.labels

abbrev pub no_errors : List OwnershipError → Bool
no_errors [] = true
no_errors (_ ∷ _) = false

unfoldable pub has_owner_labels : Secret → Bool
unfolding check_owner_labels
has_owner_labels o = no_errors (check_owner_labels o)

-- equality.Semantic.DeepEqual on lists of owner references.
unfoldable pub same_references : List OwnerReference → List OwnerReference → Bool
same_references [] [] = true
same_references (a ∷ rs) (b ∷ qs) = if a == b then same_references rs qs else false
same_references _ _ = false

check_references : List OwnerReference → List OwnerReference → List OwnershipError
check_references [] references = no_owner_references ∷ []
check_references (r ∷ rs) references =
    if same_references (r ∷ rs) references then [] else invalid_owner_references ∷ []

-- The errors joined: none if the Secret is owned by the object of the references.
unfoldable pub check_secret_is_owned_by_obj : Secret → List OwnerReference → List OwnershipError
unfolding check_owner_labels check_references same_references
check_secret_is_owned_by_obj dest references =
    let errs = check_owner_labels dest ++ check_references dest.owner_references references in
    if no_errors errs then errs else errs ++ not_the_owner dest.key ∷ []

abbrev pub is_owned : Secret → List OwnerReference → Bool
is_owned s references = no_errors (check_secret_is_owned_by_obj s references)
