-- ===== src/Helpers/Sync/Examples.antt =====
-- Syncs into a cluster in memory, and the theorems of the sync at concrete inputs.
use vault_secrets_operator.Base.{
  ◌≡◌, refl, String, true, false, Option, none, some, [], ◌∷◌, text_key, select, inl, is_some,
}
use vault_secrets_operator.Base.Map
use vault_secrets_operator.Base.Map.{copy_into, Map}
use vault_secrets_operator.Base.Result.{ok}
use vault_secrets_operator.Api.Names.{ObjectKey, object_key}
use vault_secrets_operator.Api.Secret.{Secret, OwnerReference, owner_reference_key, Bytes}
use vault_secrets_operator.Api.Destination.{Destination, Transformation}
use vault_secrets_operator.Api.Syncable.{Meta, Object, vault_static_secret}
use vault_secrets_operator.Kube.Memory.{
  Memory, memory, find, read, matches, listed, gather, insert, write, erase, memory-IsFaithful,
}
use vault_secrets_operator.Common.Errors.{Error}
use vault_secrets_operator.Common.Refs.{validate_object_key}
use vault_secrets_operator.Common.Metadata.{SyncableSecretMetaData, new_syncable_secret_meta_data}
use vault_secrets_operator.Helpers.Exists.{get_secret_exists}
use vault_secrets_operator.Helpers.Owner.{
  owner_labels_for_obj, matching_labels_for_obj, has_owner_labels, check_secret_is_owned_by_obj,
}
use vault_secrets_operator.Helpers.Sync.{
  owner_reference, new_secret, secret_type, secret_labels, owned_among, find_secrets_owned_by_obj,
  destination_key, delete_orphan, delete_orphans, prune_orphan_secrets, finish, sync_data,
  create_again, recreate, write_secret, sync_target, desired, ownership_errors, sync_owned,
  sync_found, sync_to, sync_secret,
}
use vault_secrets_operator.Helpers.Sync.Frame.{sync_secret_frame}
use vault_secrets_operator.Helpers.Sync.Written.{IsSynced, sync_secret_delivers}
use vault_secrets_operator.Helpers.Sync.Ownership.{
  HasOwnerLabels, sync_secret_owns, sync_secret_refuses,
}

abbrev plain : Transformation
plain = record {
  templates = [];
  transformation_refs = [];
  includes = [];
  excludes = [];
  exclude_raw = false;
}

abbrev destination : Destination
destination = record {
  name = "creds";
  create = true;
  overwrite = false;
  labels = ("team", "red") ∷ [];
  annotations = [];
  type = "";
  transformation = plain;
}

abbrev meta_data : Meta
meta_data = record {
  api_version = "v1beta1";
  kind = "VaultStaticSecret";
  key = record { namespace = "apps"; name = "web" };
  uid = "uid-1";
  generation = 1;
  labels = [];
  annotations = [];
}

abbrev renamed : String → Object
renamed name = vault_static_secret meta_data (record {
  vault_auth_ref = "";
  namespace = "";
  destination = record destination { name = name };
  secret_mac = "";
})

abbrev web : Object
web = renamed "creds"

abbrev web_meta : SyncableSecretMetaData
web_meta = record {
  api_version = "v1beta1";
  kind = "VaultStaticSecret";
  key = record { namespace = "apps"; name = "web" };
  destination = destination;
  auth_ref = "";
}

abbrev scheme : Object → Option (String × String)
scheme obj = some ("v1beta1", "VaultStaticSecret")

abbrev contents : Map String Bytes
contents = ("password", 112 ∷ 119 ∷ []) ∷ []

abbrev creds : ObjectKey
creds = record { namespace = "apps"; name = "creds" }

abbrev unrelated_key : ObjectKey
unrelated_key = record { namespace = "apps"; name = "unrelated" }

abbrev unrelated : Secret
unrelated = new_secret unrelated_key

abbrev foreign : Secret
foreign = record {
  key = creds;
  labels = [];
  annotations = [];
  owner_references = [];
  resource_version = "7";
  generation = 0;
  type = "Opaque";
  immutable = false;
  contents = [];
}

abbrev cluster : Memory
cluster = (unrelated_key, unrelated) ∷ []

abbrev taken : Memory
taken = (creds, foreign) ∷ cluster

found_meta : new_syncable_secret_meta_data web ≡ ok web_meta
unfolding new_syncable_secret_meta_data
found_meta = refl

-- Opening this opens all that a sync in memory calls.
run : Memory → Memory × Option Error
unfolding sync_secret sync_to sync_found sync_owned sync_data ownership_errors write_secret recreate
    create_again desired sync_target finish prune_orphan_secrets delete_orphans delete_orphan
    find_secrets_owned_by_obj owned_among get_secret_exists new_secret secret_labels secret_type
    owner_reference copy_into owner_labels_for_obj matching_labels_for_obj
    check_secret_is_owned_by_obj has_owner_labels find read matches listed gather insert write erase
    select validate_object_key new_syncable_secret_meta_data Map.get Map.put Map.delete Map.keys
    object_key owner_reference_key
run c = sync_secret memory scheme true web contents c

sync_ok : (sync_secret memory scheme true web contents cluster).1 ≡ none
unfolding run
sync_ok = refl

-- The old Secret of the resource is pruned when its destination is renamed.
pruned :
    find creds (sync_secret memory scheme true (renamed "fresh") contents (run cluster).0).0 ≡ none
unfolding run
pruned = refl

refused : (run taken).0 ≡ taken
unfolding run
refused = refl

sync_secret_frame_example :
    find unrelated_key (sync_secret memory scheme true web contents cluster).0 ≡ some unrelated
unfolding run
sync_secret_frame_example =
    sync_secret_frame memory scheme find memory-IsFaithful web unrelated_key unrelated true contents
      cluster web_meta refl found_meta (λ e. cc e) refl

sync_secret_delivers_example :
    (t : Secret) × (find creds (sync_secret memory scheme true web contents cluster).0 ≡ some t)
    × (t.contents ≡ contents)
    × (true ≡ true → IsSynced web web_meta t)
sync_secret_delivers_example =
    sync_secret_delivers memory scheme find memory-IsFaithful web web_meta contents true cluster
      found_meta sync_ok

abbrev web_owner : OwnerReference
web_owner = record {
  api_version = "v1beta1";
  kind = "VaultStaticSecret";
  name = "web";
  uid = "uid-1";
}

-- What the first sync writes.
abbrev synced : Secret
synced = record {
  key = creds;
  labels = secret_labels web destination;
  annotations = [];
  owner_references = owner_reference "v1beta1" "VaultStaticSecret" meta_data ∷ [];
  resource_version = "";
  generation = 0;
  type = secret_type destination;
  immutable = false;
  contents = contents;
}

sync_secret_owns_example :
    (t : Secret) × (find creds (sync_secret memory scheme true web contents cluster).0 ≡ some t)
    × HasOwnerLabels t.labels
    × (t.owner_references ≡ owner_reference "v1beta1" "VaultStaticSecret" meta_data ∷ [])
sync_secret_owns_example =
    sync_secret_owns memory scheme find memory-IsFaithful true web web_meta contents cluster
      (λ e. cc e) found_meta refl sync_ok

taken_by : get_secret_exists memory (destination_key web destination) taken ≡ ok (some foreign)
unfolding run
taken_by = refl

foreign_other : ¬ (
    HasOwnerLabels foreign.labels
    × (foreign.owner_references ≡ owner_reference "v1beta1" "VaultStaticSecret" meta_data ∷ []))
foreign_other p = cc (p.1)

sync_secret_refuses_example :
    ((sync_secret memory scheme true web contents taken).0 ≡ taken)
    × (is_some (sync_secret memory scheme true web contents taken).1 ≡ true)
sync_secret_refuses_example =
    sync_secret_refuses memory scheme true web web_meta contents foreign taken found_meta taken_by
      refl (inl refl) foreign_other
