-- ===== src/Controllers/StaticSecret/Reconcile/Examples.antt =====
-- A VaultStaticSecret with a cluster in memory, a hash that appends the key and a Vault that counts
-- its requests.
use vault_secrets_operator.Base.{
  ℕ, suc, ◌*◌, ◌++◌, ◌≡◌, refl, String, true, false, none, some, [], ◌∷◌, text_key,
}
use vault_secrets_operator.Base.Map.{Map}
use vault_secrets_operator.Base.Result.{ok}
use vault_secrets_operator.Api.Names.{ObjectKey}
use vault_secrets_operator.Api.Secret.{Bytes}
use vault_secrets_operator.Api.DynamicSecret.{ClientMeta}
use vault_secrets_operator.Api.StaticSecret.{StaticSecret}
use vault_secrets_operator.Kube.Memory.{memory}
use vault_secrets_operator.Helpers.Hmac.{new_hmac_validator}
use vault_secrets_operator.Vault.Client.{Factory}
use vault_secrets_operator.Vault.Requests.{join_path, kv_read_request_v2, path}
use vault_secrets_operator.Controllers.Horizon.{nanoseconds}
use vault_secrets_operator.Controllers.Reconciler.{Reconciler}
use vault_secrets_operator.Controllers.StaticSecret.{World}
use vault_secrets_operator.Controllers.StaticSecret.Watcher.{Outside}
use vault_secrets_operator.Controllers.StaticSecret.Reconcile.{new_kv_request, reconcile_data}
use vault_secrets_operator.Controllers.StaticSecret.Reconcile.Delivered.{
  Ending, reconcile_data-Ending,
}

abbrev vault_client : ClientMeta
vault_client = record { cache_key = "kubernetes-1"; id = "client-1" }

abbrev counting : Factory
counting = record {
  Vault = ℕ;
  get_client = λ obj v. (v, ok vault_client);
  read = λ c request v. (suc v, ok none);
  write = λ c path params v. (suc v, ok none);
  taint = λ c v. v;
}

abbrev hash : Bytes → Bytes → Bytes
hash key message = message ++ key

abbrev hmac_key : ObjectKey
hmac_key = record { namespace = "vso"; name = "hmac" }

abbrev reconciler : Reconciler
reconciler = record {
  client = memory;
  factory = counting;
  validator = new_hmac_validator memory hash hmac_key;
  hash = hash;
  runtime_pod_uid = "";
  gvk = λ obj. some ("v1beta1", "VaultStaticSecret");
  transformation_option = λ obj. ok (record {
    excludes = [];
    includes = [];
    annotations = [];
    labels = [];
    keyed_templates = [];
    exclude_raw = true;
  });
  build = λ m raw opt. ok [];
  encode = λ m. ok [];
  decode = λ t. ok [];
  encode_string = λ b. "mac";
  parse_duration = λ t. ok (nanoseconds 0);
  parse_time = λ t. ok 0;
  parse_int = λ t. ok 0;
  RetryState = ℕ;
  fresh = 1;
  next = λ draw n. (some n, 2 * n);
  now = 0;
  random = λ i. 7;
}

abbrev outside : Outside reconciler
outside = record { stops = true; websocket_client = λ c. none }

abbrev key : ObjectKey
key = record { namespace = "apps"; name = "web" }

abbrev web : StaticSecret
web = record {
  meta = record {
    api_version = "v1beta1";
    kind = "VaultStaticSecret";
    key = key;
    uid = "uid-1";
    generation = 2;
    labels = [];
    annotations = [];
  };
  deleting = false;
  finalizers = [];
  common = record {
    vault_auth_ref = "";
    namespace = "";
    destination = record {
      name = "creds";
      create = true;
      overwrite = false;
      labels = [];
      annotations = [];
      type = "";
      transformation = record {
        templates = [];
        transformation_refs = [];
        includes = [];
        excludes = [];
        exclude_raw = false;
      };
    };
    secret_mac = "";
  };
  spec = record {
    mount = "kv";
    path = "app";
    version = 0;
    type = "kv-v2";
    refresh_after = "";
    hmac_secret_data = some true;
    sync_config = none;
  };
  last_generation = 1;
}

kv_v2 : new_kv_request web ≡ ok (kv_read_request_v2 "kv" "app" 0)
unfolding new_kv_request
kv_v2 = refl

kv_v2_path : path (kv_read_request_v2 "kv" "app" 0) ≡ "kv/data/app"
unfolding path join_path
kv_v2_path = refl

abbrev contents : Map String Bytes
contents = ("user", 1 ∷ []) ∷ []

abbrev world : World reconciler
world = record {
  objects = (key, web) ∷ [];
  cluster = [];
  vault = 0;
  back_offs = [];
  references = [];
  watchers = [];
  restarts = [];
  events = [];
  faults = record { read = none; status_update = none; update = none };
}

reconcile_data-Ending_example :
    Ending reconciler outside hmac_key refl key vault_client web contents world
      (reconcile_data reconciler outside key vault_client web contents 0 world)
reconcile_data-Ending_example =
    reconcile_data-Ending reconciler outside hmac_key refl key vault_client web contents 0 world
