-- ===== src/Common/VaultAuth/Examples.antt =====
-- A VaultAuth merged with a VaultAuthGlobal at concrete inputs.
use vault_secrets_operator.Base.{
  ◌≡◌, ◌≢◌, refl, String, true, false, none, some, [], ◌∷◌, ◌==◌, text_key, arith, eq_iff, contains,
  if◌then◌else◌,
}
use vault_secrets_operator.Base.Map.{copy_into, put, delete}
use vault_secrets_operator.Base.Result.{Result, ok, err}
use vault_secrets_operator.Api.Names.{ObjectKey, object_key}
use vault_secrets_operator.Api.Secret.{ApiError, not_found}
use vault_secrets_operator.Api.AuthConfig.{text_or, fill_kubernetes, validate_kubernetes}
use vault_secrets_operator.Api.VaultAuth.{
  VaultAuth, VaultAuthSpec, VaultAuthGlobalRef, VaultAuthGlobal, VaultAuthGlobalSpec,
}
use vault_secrets_operator.Common.Merge.{merge_spec}
use vault_secrets_operator.Common.Merge.Config.{
  ProviderMethod, kubernetes, provider_method, merge_method, merge_provider, merge_kubernetes,
  merge_config, validated,
}
use vault_secrets_operator.Common.Merge.Config.Combined.{
  method_defaults, is_accepted_spec, is_valid_spec, is_valid, defaults,
}
use vault_secrets_operator.Common.Merge.Fields.{
  merge_fields, merge_mount, merge_by_strategy, merge_maps, merge_onto, first_non_zero_len,
  str_len_func, params_merge_strategy, headers_merge_strategy,
}
use vault_secrets_operator.Api.AuthConfig.Merge.{merge, kubernetes_config}
use vault_secrets_operator.Common.Merge.Global
use vault_secrets_operator.Api.Syncable.{Object, vault_static_secret}
use vault_secrets_operator.Common.VaultAuth.{
  set_vault_connection_ref, get_connection_namespaced_name,
}
use vault_secrets_operator.Common.Merge.Global.{find_from, find_vault_auth_global_default}
use vault_secrets_operator.Common.Merge.Global.Read.{
  find_vault_auth_global_default-first_default, first_default,
}
use vault_secrets_operator.Common.VaultAuth.Connection.{
  get_connection_namespaced_name-set_vault_connection_ref,
}
use vault_secrets_operator.Common.Merge.Total.{is_known_strategy, merge_spec_total}
use vault_secrets_operator.Common.Merge.Config.Filled.{IsConfigured}
use vault_secrets_operator.Common.Merge.Outcome.{merge_spec-IsMerged, IsMerged}

abbrev shared_key : ObjectKey
shared_key = record { namespace = "vso"; name = "default" }

-- The reference names nothing.
abbrev no_key : ObjectKey
no_key = record { namespace = ""; name = "" }

abbrev own_key : ObjectKey
own_key = record { namespace = "team"; name = "auth" }

abbrev shared : VaultAuthGlobalSpec
shared = record {
  allowed_namespaces = "team" ∷ [];
  vault_connection_ref = "shared";
  default_vault_namespace = "root";
  default_auth_method = "kubernetes";
  default_mount = "k8s";
  default_params = ("a", "1") ∷ ("b", "1") ∷ [];
  default_headers = [];
  kubernetes = some (record {
    config = record {
      role = "base";
      service_account = "sa";
      token_audiences = [];
      token_expiration_seconds = 600;
    };
    namespace = "";
    mount = "cluster";
    params = ("b", "2") ∷ [];
    headers = [];
  });
  app_role = none;
  jwt = none;
  aws = none;
  gcp = none;
}

abbrev shared_object : VaultAuthGlobal
shared_object = record { key = shared_key; spec = shared }

abbrev link : VaultAuthGlobalRef
link = record {
  name = "";
  namespace = "";
  merge_strategy = some (record { headers = ""; params = "union" });
  allow_default = some true;
}

abbrev own : VaultAuthSpec
own = record {
  vault_connection_ref = "";
  vault_auth_global_ref = some link;
  namespace = "tenant";
  allowed_namespaces = [];
  method = "";
  mount = "";
  params = ("c", "3") ∷ [];
  headers = [];
  kubernetes = some (record {
    role = "app";
    service_account = "";
    token_audiences = [];
    token_expiration_seconds = 0;
  });
  app_role = none;
  jwt = none;
  aws = none;
  gcp = none;
  storage_encryption = none;
}

abbrev merged : VaultAuthSpec
merged = record own {
  vault_connection_ref = "shared";
  method = "kubernetes";
  mount = "cluster";
  params = ("c", "3") ∷ ("b", "2") ∷ ("a", "1") ∷ [];
  kubernetes = some (record {
    role = "app";
    service_account = "sa";
    token_audiences = [];
    token_expiration_seconds = 600;
  });
}

run : merge_spec own_key no_key link shared own ≡ ok merged
unfolding merge_spec merge_method merge_provider merge_kubernetes merge_config merge
    kubernetes_config fill_kubernetes validate_kubernetes provider_method merge_fields merge_mount
    merge_by_strategy merge_maps merge_onto copy_into first_non_zero_len str_len_func
    params_merge_strategy headers_merge_strategy put delete validated
run = refl

merge_spec-IsMerged_example :
    (p : ProviderMethod) × (provider_method merged.method ≡ some p)
    × IsMerged link shared own p merged
    × IsConfigured shared own merged p
    × (is_accepted_spec shared merged p ≡ true)
merge_spec-IsMerged_example = merge_spec-IsMerged own_key no_key link shared own merged run

uses_kubernetes : provider_method "kubernetes" ≡ some kubernetes
unfolding provider_method
uses_kubernetes = refl

has_valid_block : is_valid_spec shared kubernetes ≡ true
unfolding is_valid_spec is_valid kubernetes_config validate_kubernetes
has_valid_block = refl

has_mount :
    text_or own.mount (text_or (method_defaults shared kubernetes).mount shared.default_mount) ≢ ""
unfolding method_defaults defaults
has_mount e = absurd (ground (arith, eq_iff "cluster" ""))

knows_union : is_known_strategy (params_merge_strategy link) ≡ true
unfolding is_known_strategy params_merge_strategy
knows_union = refl

knows_none : is_known_strategy (headers_merge_strategy link) ≡ true
unfolding is_known_strategy headers_merge_strategy
knows_none = refl

merge_spec_total_example : (m : VaultAuthSpec) × (merge_spec own_key no_key link shared own ≡ ok m)
merge_spec_total_example =
    merge_spec_total own_key no_key link shared own kubernetes uses_kubernetes has_valid_block
      has_mount knows_union knows_none

-- Only the operator's namespace has a default VaultAuthGlobal.
abbrev get_global : ObjectKey → Result ApiError VaultAuthGlobal
get_global key = if key == shared_key then ok shared_object else err not_found

find_vault_auth_global_default-first_default_example :
    find_vault_auth_global_default "vso" get_global ("team" ∷ "" ∷ "team" ∷ "vso" ∷ [])
    ≡ first_default "vso" get_global
        ("team" ∷ "" ∷ "team" ∷ "vso" ∷ [])
        ("team" ∷ "" ∷ "team" ∷ "vso" ∷ [])
find_vault_auth_global_default-first_default_example =
    find_vault_auth_global_default-first_default "vso" get_global
      ("team" ∷ "" ∷ "team" ∷ "vso" ∷ [])

finds_shared :
    find_vault_auth_global_default "vso" get_global ("team" ∷ "" ∷ "team" ∷ "vso" ∷ [])
    ≡ ok shared_object
unfolding find_vault_auth_global_default find_from contains object_key
finds_shared = refl

abbrev auth : VaultAuth
auth = record { key = own_key; uid = "u1"; generation = 1; labels = []; spec = own }

abbrev get_auth : ObjectKey → Result ApiError VaultAuth
get_auth key = if key == own_key then ok auth else err not_found

abbrev web : Object
web =
    vault_static_secret
      (record {
        api_version = "v1beta1";
        kind = "VaultStaticSecret";
        key = record { namespace = "team"; name = "web" };
        uid = "u2";
        generation = 1;
        labels = [];
        annotations = [];
      })
      (record {
        vault_auth_ref = "auth";
        namespace = "";
        destination = record {
          name = "creds";
          create = true;
          overwrite = false;
          labels = [];
          annotations = [];
          type = "";
          transformation = record {
            templates = [];
            transformation_refs = [];
            includes = [];
            excludes = [];
            exclude_raw = false;
          };
        };
        secret_mac = "";
      })

abbrev vso : String
vso = "vso"

vso_named : vso ≢ ""
vso_named e = absurd (ground (arith, eq_iff "vso" ""))

get_connection_namespaced_name-set_vault_connection_ref_example :
    get_connection_namespaced_name "vso"
      (set_vault_connection_ref "vso" (record auth { key = shared_key }))
    ≡ get_connection_namespaced_name "vso" (record auth { key = shared_key })
get_connection_namespaced_name-set_vault_connection_ref_example =
    get_connection_namespaced_name-set_vault_connection_ref "vso" (record auth { key = shared_key })
      vso_named
