-- ===== src/Helpers/Hmac/Examples.antt =====
-- MACs with a cluster in memory, a hash that appends the key, and an encoding that concatenates.
use vault_secrets_operator.Base.{
  ◌≡◌, ◌↔◌, refl, String, none, [], ◌∷◌, ◌++◌, text_key, bytes_key, true, false,
}
use vault_secrets_operator.Base.Map
use vault_secrets_operator.Base.Map.{Map}
use vault_secrets_operator.Base.Result.{Result, ok}
use vault_secrets_operator.Api.Names.{ObjectKey, object_key}
use vault_secrets_operator.Api.Secret.{Bytes}
use vault_secrets_operator.Api.Syncable.{Object, vault_static_secret}
use vault_secrets_operator.Kube.Memory.{Memory, memory, find, memory-IsFaithful, insert, read}
use vault_secrets_operator.Common.Errors.{Error}
use vault_secrets_operator.Common.Refs.{validate_object_key}
use vault_secrets_operator.Common.Metadata.{new_syncable_secret_meta_data}
use vault_secrets_operator.Helpers.Exists.{get_secret_exists, get_secret_exists_for_obj}
use vault_secrets_operator.Helpers.Hmac.{
  validate_key_length, hmac_key_secret, create_hmac_key_secret, get_hmac_key_from_secret,
  new_hmac_validator, handle_secret_hmac, hmac_destination_secret, has_mac, hmac_from_secret,
  validate_mac_from_secret, get_hmac_key_secret, validate_hmac_key_secret, validate_mac,
  mac_message, get_secret_mac,
}
use vault_secrets_operator.Helpers.Hmac.Drift.{IsInSync, handle_secret_hmac_iff}
use vault_secrets_operator.Helpers.Hmac.Key.{get_hmac_key-create_hmac_key_secret}

abbrev hash : Bytes → Bytes → Bytes
hash key message = message ++ key

abbrev concat : Map String Bytes → Bytes
concat [] = []
concat ((_, b) ∷ m) = b ++ concat m

abbrev encode : Map String Bytes → Result Error Bytes
encode m = ok (concat m)

abbrev key_name : ObjectKey
key_name = record { namespace = "vso"; name = "hmac" }

abbrev key : Bytes
key = 1 ∷ 2 ∷ 3 ∷ 4 ∷ 5 ∷ 6 ∷ 7 ∷ 8 ∷ 9 ∷ 10 ∷ 11 ∷ 12 ∷ 13 ∷ 14 ∷ 15 ∷ 16 ∷ []

abbrev decode : String → Result Error Bytes
decode _ = ok (5 ∷ key)

abbrev key_cluster : Memory
key_cluster = (key_name, hmac_key_secret key_name key) ∷ []

abbrev contents : Map String Bytes
contents = ("user", 5 ∷ []) ∷ []

abbrev cluster : Memory
cluster =
    (
      record { namespace = "apps"; name = "creds" },
      record (hmac_key_secret (record { namespace = "apps"; name = "creds" }) []) {
        contents = contents;
      },
    )
    ∷ key_cluster

abbrev web : Object
web =
    vault_static_secret
      (record {
        api_version = "v1beta1";
        kind = "VaultStaticSecret";
        key = record { namespace = "apps"; name = "web" };
        uid = "u1";
        generation = 1;
        labels = [];
        annotations = [];
      })
      (record {
        vault_auth_ref = "";
        namespace = "";
        destination = record {
          name = "creds";
          create = true;
          overwrite = false;
          labels = [];
          annotations = [];
          type = "";
          transformation = record {
            templates = [];
            transformation_refs = [];
            includes = [];
            excludes = [];
            exclude_raw = false;
          };
        };
        secret_mac = "BQEC";
      })

handle_secret_hmac_iff_example :
    (handle_secret_hmac memory hash encode decode
        (new_hmac_validator memory hash key_name)
        web
        contents
        cluster
      ≡ ok (true, 5 ∷ key))
    ↔ IsInSync memory hash key_name encode decode web contents cluster (5 ∷ key)
handle_secret_hmac_iff_example =
    handle_secret_hmac_iff memory hash key_name encode decode web contents cluster (5 ∷ key)

complete_name : validate_object_key key_name ≡ none
unfolding validate_object_key
complete_name = refl

right_length : validate_key_length key ≡ none
unfolding validate_key_length
right_length = refl

stores_key :
    create_hmac_key_secret memory hash key_name key []
    ≡ (key_cluster, ok (hmac_key_secret key_name key))
unfolding create_hmac_key_secret insert hmac_key_secret Map.get Map.put Map.delete
stores_key = refl

reads_key : memory.get key_name key_cluster ≡ ok (hmac_key_secret key_name key)
unfolding read hmac_key_secret Map.get object_key
reads_key = refl

get_hmac_key-create_hmac_key_secret_example :
    get_hmac_key_from_secret memory hash key_name key_cluster ≡ ok key
get_hmac_key-create_hmac_key_secret_example =
    get_hmac_key-create_hmac_key_secret memory find memory-IsFaithful hash key_name key []
      key_cluster (hmac_key_secret key_name key) (hmac_key_secret key_name key) complete_name
      right_length stores_key reads_key

-- Nothing has changed.
in_sync :
    handle_secret_hmac memory hash encode decode
      (new_hmac_validator memory hash key_name)
      web
      contents
      cluster
    ≡ ok (true, 5 ∷ key)
unfolding handle_secret_hmac hmac_destination_secret has_mac new_hmac_validator hmac_from_secret
    validate_mac_from_secret get_hmac_key_from_secret get_hmac_key_secret validate_hmac_key_secret
    validate_mac mac_message get_secret_mac validate_key_length hmac_key_secret read
    validate_object_key Map.get object_key bytes_key get_secret_exists_for_obj get_secret_exists
    new_syncable_secret_meta_data
in_sync = refl
