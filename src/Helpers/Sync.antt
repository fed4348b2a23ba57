-- ===== src/Helpers/Sync.antt =====
-- helpers/secrets.go: SyncSecret and the calls it makes of the Kubernetes API. A call gives the
-- cluster after it, and the error that the function returns, if any.
pub mod Frame
pub mod Dest
pub mod Written
pub mod Ownership
mod Examples
use vault_secrets_operator.Base.{
  ℕ, zero, suc, String, Bool, true, false, not, ◌||◌, Option, none, some, List, [], ◌∷◌, ◌++◌, ◌==◌,
  text_key, if◌then◌else◌, is_some, select,
}
use vault_secrets_operator.Base.Map
use vault_secrets_operator.Base.Map.{copy_into, Map}
use vault_secrets_operator.Base.Result.{Result, ok, err, ◌>>=◌}
use vault_secrets_operator.Api.Names.{ObjectKey}
use vault_secrets_operator.Api.Secret.{
  Secret, OwnerReference, ApiError, is_not_found, is_already_exists, Bytes,
}
use vault_secrets_operator.Api.Destination.{Destination}
use vault_secrets_operator.Api.Syncable.{Meta, Object, meta_of}
use vault_secrets_operator.Kube.Client.{Client}
use vault_secrets_operator.Common.Errors.{
  Error, OwnershipError, api, invalid_destination, destination_missing, ownership, no_scheme_kind,
}
use vault_secrets_operator.Common.Refs.{validate_object_key}
use vault_secrets_operator.Common.Metadata.{SyncableSecretMetaData, new_syncable_secret_meta_data}
use vault_secrets_operator.Helpers.Exists.{get_secret_exists}
use vault_secrets_operator.Helpers.Owner.{
  owner_labels_for_obj, matching_labels_for_obj, has_owner_labels, check_secret_is_owned_by_obj,
  is_owned, no_errors,
}

-- corev1.SecretTypeOpaque
abbrev pub opaque : String
opaque = "Opaque"

-- The reference that a Secret owned by the object bears.
unfoldable pub owner_reference : String → String → Meta → OwnerReference
owner_reference api_version kind m = record {
  api_version = api_version;
  kind = kind;
  name = m.key.name;
  uid = m.uid;
}

abbrev pub destination_key : Object → Destination → ObjectKey
destination_key obj d = record { namespace = (meta_of obj).key.namespace; name = d.name }

-- `secretType`
unfoldable pub secret_type : Destination → String
secret_type d = if d.type == "" then opaque else d.type

-- The labels of the destination, and over them the owner labels: the error of OwnerLabelsForObj
-- is not looked at, and its labels are nil then.
unfoldable pub secret_labels : Object → Destination → Map String String
secret_labels obj d =
    copy_into (elim (owner_labels_for_obj (meta_of obj)) [ ok l ↦ l | err _ ↦ [] ])
      (copy_into d.labels [])

-- The Secret that is created where none exists.
unfoldable pub new_secret : ObjectKey → Secret
new_secret key = record {
  key = key;
  labels = [];
  annotations = [];
  owner_references = [];
  resource_version = "";
  generation = 0;
  type = "";
  immutable = false;
  contents = [];
}

-- The client, and the scheme's API version and kind of an object (apiutil.GVKForObject).
module _ (k : Client) (gvk : Object → Option (String × String)) where
  open k use {Cluster, get, list, create, update, delete}

  abbrev pub Outcome : Type 0
  Outcome = Cluster × Option Error

  -- The error is returned, or the function goes on with the object that was written.
  abbrev pub after : Cluster × Result ApiError Secret → (Secret → Cluster → Outcome) → Outcome
  after (c, err e) f = (c, some (api e))
  after (c, ok s) f = f s c

  pub owned_among : List Secret → OwnerReference → List Secret
  owned_among ss reference = select (λ s. is_owned s (reference ∷ [])) ss

  pub find_secrets_owned_by_obj : Object → Cluster → Result Error (List Secret)
  find_secrets_owned_by_obj obj c = elim (gvk obj) [
    | none ↦ err no_scheme_kind
    | some (api_version, kind) ↦ elim (matching_labels_for_obj (meta_of obj)) [
      | err e ↦ err e
      | ok labels ↦ elim (list (meta_of obj).key.namespace labels c) [
        | err e ↦ err (api e)
        | ok ss ↦ ok (owned_among ss (owner_reference api_version kind (meta_of obj)))
      ]
    ]
  ]

  -- One Secret of the loop of pruneOrphanSecrets.
  pub delete_orphan : String → Secret → Cluster → Cluster × List ApiError
  delete_orphan name s c =
      if s.key.name == name
      then (c, [])
      else let (c', failed) = delete s.key c in (c', elim failed [ none ↦ [] | some e ↦ e ∷ [] ])

  -- The loop, and the errors that it joins.
  pub delete_orphans : String → List Secret → Cluster → Cluster × List ApiError
  delete_orphans name [] c = (c, [])
  delete_orphans name (s ∷ ss) c =
      let (c1, failed) = delete_orphan name s c in
      let (c2, errs) = delete_orphans name ss c1 in (c2, failed ++ errs)

  pub prune_orphan_secrets : Object → Destination → Cluster → Cluster
  unfolding find_secrets_owned_by_obj
  prune_orphan_secrets obj d c = elim (find_secrets_owned_by_obj obj c) [
    | err e ↦ c
    | ok owned ↦ (delete_orphans d.name owned c).0
  ]

  -- `pruneOrphans()`, whose errors are logged and no more, and `return nil`.
  pub finish : Bool → Object → Destination → Cluster → Outcome
  finish prune obj d c = (if prune then prune_orphan_secrets obj d c else c, none)

  -- `create` is not set: the Secret must exist, and only its data is written.
  pub sync_data : Bool → Object → Destination → Map String Bytes → Option Secret → Cluster → Outcome
  sync_data prune obj d contents none c = (c, some (destination_missing (destination_key obj d)))
  sync_data prune obj d contents (some dest) c =
      after (update (record dest { contents = contents }) c) (λ _. finish prune obj d)

  -- The second half of the re-creation: `dest'` is what the server made of the first.
  pub create_again : Bool → Object → Destination → Secret → Secret → Cluster → Outcome
  create_again prune obj d dest dest' c =
      let (c', failed) = delete dest'.key c in
      elim failed [
        | some e ↦ (c', some (api e))
        | none ↦
            after
              (create
                (record dest' {
                  type = dest.type;
                  resource_version = "";
                  generation = 0;
                  labels = dest.labels;
                })
                c')
              (λ _. finish prune obj d)
      ]

  -- The type of a Secret is immutable: it is deleted and created anew.
  pub recreate : Bool → Object → Destination → Secret → String → Cluster → Outcome
  recreate prune obj d dest last_type c =
      after (update (record dest { type = last_type; labels = [] }) c)
        (create_again prune obj d dest)

  pub write_secret : Bool → Object → Destination → Secret → Option Secret → Cluster → Outcome
  write_secret prune obj d dest none c = after (create dest c) (λ _. finish prune obj d)
  write_secret prune obj d dest (some old) c =
      if dest.type == old.type
      then after (update dest c) (λ _. finish prune obj d)
      else recreate prune obj d dest old.type c

  -- The Secret found, or a new one.
  pub sync_target : Object → Destination → Option Secret → Secret
  sync_target obj d none = new_secret (destination_key obj d)
  sync_target obj d (some s) = s

  -- What is written: the target with all that the resource says of it.
  pub desired : Object → SyncableSecretMetaData → Map String Bytes → Option Secret → Secret
  unfolding sync_target
  desired obj meta contents found =
      let d = meta.destination in
      record (sync_target obj d found) {
        contents = contents;
        type = secret_type d;
        annotations = d.annotations;
        labels = secret_labels obj d;
        owner_references = owner_reference meta.api_version meta.kind (meta_of obj) ∷ [];
      }

  -- The ownership check of a Secret that exists: with `overwrite` it is made only if the Secret
  -- has the owner labels.
  pub ownership_errors : Destination → Option Secret → List OwnerReference → List OwnershipError
  ownership_errors d none references = []
  ownership_errors d (some s) references =
      if not d.overwrite || has_owner_labels s
      then check_secret_is_owned_by_obj s references
      else []

  -- `create` is set: the operator has the Secret's whole life in hand.
  pub sync_owned :
      Bool → Object → SyncableSecretMetaData → Map String Bytes → Option Secret → Cluster → Outcome
  sync_owned prune obj meta contents found c =
      let errs =
        ownership_errors meta.destination found
          (owner_reference meta.api_version meta.kind (meta_of obj) ∷ []) in
      if no_errors errs
      then write_secret prune obj meta.destination (desired obj meta contents found) found c
      else (c, some (ownership errs))

  pub sync_found :
      Bool → Object → SyncableSecretMetaData → Map String Bytes → Option Secret → Cluster → Outcome
  sync_found prune obj meta contents found c =
      if meta.destination.create
      then sync_owned prune obj meta contents found c
      else sync_data prune obj meta.destination contents found c

  pub sync_to : Bool → Object → SyncableSecretMetaData → Map String Bytes → Cluster → Outcome
  sync_to prune obj meta contents c =
      let key = destination_key obj meta.destination in
      elim (validate_object_key key) [
        | some e ↦ (c, some (invalid_destination e))
        | none ↦ elim (get_secret_exists k key c) [
          | err e ↦ (c, some e)
          | ok found ↦ sync_found prune obj meta contents found c
        ]
      ]

  -- SyncSecret; `prune` is the option PruneOrphans, true by default.
  pub sync_secret : Bool → Object → Map String Bytes → Cluster → Outcome
  sync_secret prune obj contents c = elim (new_syncable_secret_meta_data obj) [
    | err e ↦ (c, some e)
    | ok meta ↦ sync_to prune obj meta contents c
  ]
