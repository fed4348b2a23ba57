-- ===== src/Controllers/DynamicSecret/Reconcile/Examples.antt =====
-- Reconciliations of a VaultDynamicSecret with a cluster in memory and a Vault that counts its
-- requests.
use vault_secrets_operator.Base.{
  ℕ, suc, ◌+◌, ◌*◌, ◌≤◌, ◌<◌, ◌≡◌, ◌⊎◌, refl, String, Bool, true, false, none, some, not, [], ◌∷◌,
  arith, text_key, bytes_key, same_bytes, ◌==◌,
}
use vault_secrets_operator.Base.Map
use vault_secrets_operator.Base.Map.{Map, copy_into}
use vault_secrets_operator.Base.Result.{ok}
use vault_secrets_operator.Api.Names.{ObjectKey, object_key}
use vault_secrets_operator.Api.Secret.{Bytes}
use vault_secrets_operator.Api.Destination.{Destination}
use vault_secrets_operator.Api.DynamicSecret.{DynamicSecret, Lease, StaticCreds, ClientMeta}
use vault_secrets_operator.Kube.Memory.{memory, read}
use vault_secrets_operator.Common.Metadata.{new_syncable_secret_meta_data}
use vault_secrets_operator.Helpers.Exists.{
  get_secret_exists, get_secret_exists_for_obj, check_secret_exists,
}
use vault_secrets_operator.Helpers.Filter.{SecretTransformationOption}
use vault_secrets_operator.Helpers.Sync.{new_secret}
use vault_secrets_operator.Helpers.Hmac.{
  get_secret_mac, handle_secret_hmac, hmac_destination_secret, has_mac,
}
use vault_secrets_operator.Vault.Client.{Factory}
use vault_secrets_operator.Vault.Requests.{join_path}
use vault_secrets_operator.Vault.Responses.{
  Response, text, int, default_response, secret, contents, raw_contents, secret_k8s_data,
}
use vault_secrets_operator.Controllers.Horizon.{nanoseconds}
use vault_secrets_operator.Controllers.Registry
use vault_secrets_operator.Controllers.Reconciler.{Reconciler}
use vault_secrets_operator.Controllers.DynamicSecret.{World, get_object}
use vault_secrets_operator.Controllers.DynamicSecret.Creds.{
  is_static_creds, vault_static_creds_meta_data_from_data, rotation_time, whole, schedule,
}
use vault_secrets_operator.Controllers.DynamicSecret.Window.{
  get_rotation_duration, compute_post_sync_horizon, compute_rotation_time,
  compute_relative_horizon_with_jitter,
}
use vault_secrets_operator.Controllers.DynamicSecret.Window.Bounds.{static_rotation_bounds}
use vault_secrets_operator.Controllers.DynamicSecret.Requests.{
  request_method, get_vault_secret_lease, request, do_vault,
}
use vault_secrets_operator.Controllers.DynamicSecret.Rotation.{
  must_await, in_last_sync_rotation, retry_error, attempt, Operation, await_vault_secret_rotation,
}
use vault_secrets_operator.Controllers.DynamicSecret.Rotation.Fresh.{
  attempts, IsRetry, IsFresh, await_vault_secret_rotation-IsFresh,
}
use vault_secrets_operator.Controllers.DynamicSecret.SyncSecret.{
  sync_secret, sync_response, sync_static, store_static, with_mac, data_to_mac,
}
use vault_secrets_operator.Controllers.DynamicSecret.Reconcile.{
  reconcile, with_client, destination_exists, with_references,
}
use vault_secrets_operator.Controllers.DynamicSecret.Reconcile.Pending.{
  WasSynced, IsDeleting, reconcile-pending,
}
use vault_secrets_operator.Controllers.DynamicSecret.Reconcile.Settled.{
  IsSettled, reconcile-IsSettled,
}

abbrev lease : Lease
lease = record { id = "lease-1"; lease_duration = 60; renewable = true; request_id = "r" }

abbrev creds : StaticCreds
creds = record {
  last_vault_rotation = 1000;
  rotation_period = 3600;
  rotation_schedule = "";
  ttl = 30;
}

abbrev vault_client : ClientMeta
vault_client = record { cache_key = "kubernetes-1"; id = "client-1" }

-- What is read are static credentials, and what is written is the renewal of a lease.
abbrev no_lease : Lease
no_lease = record { id = ""; lease_duration = 0; renewable = false; request_id = "r" }

abbrev rotated : Response
rotated = default_response (
    some (record {
      lease = no_lease;
      contents = ("last_vault_rotation", text "t") ∷ ("ttl", int 30) ∷ [];
    }))

abbrev renewed_lease : Response
renewed_lease = default_response (some (record { lease = lease; contents = [] }))

abbrev counting : Factory
counting = record {
  Vault = ℕ;
  get_client = λ obj v. (v, ok vault_client);
  read = λ c path v. (suc v, ok (some rotated));
  write = λ c path params v. (suc v, ok (some renewed_lease));
  taint = λ c v. v;
}

abbrev no_filter : SecretTransformationOption
no_filter = record {
  excludes = [];
  includes = [];
  annotations = [];
  labels = [];
  keyed_templates = [];
  exclude_raw = true;
}

abbrev reconciler : Reconciler
reconciler = record {
  client = memory;
  factory = counting;
  validator = record { hmac = λ c m. ok m; validate = λ c m mac. ok (m == mac, m) };
  hash = λ key m. m;
  runtime_pod_uid = "pod-1";
  gvk = λ obj. some ("v1beta1", "VaultDynamicSecret");
  transformation_option = λ obj. ok no_filter;
  build = λ m raw opt. ok (("user", 1 ∷ []) ∷ []);
  encode = λ m. ok [];
  decode = λ t. ok [];
  encode_string = λ b. "mac";
  parse_duration = λ t. ok (nanoseconds 0);
  parse_time = λ t. ok 1000;
  parse_int = λ t. ok 30;
  RetryState = ℕ;
  fresh = 1;
  next = λ draw n. (some n, 2 * n);
  now = 1_010_000_000_000;
  random = λ i. 7;
}

-- backoff.Retry with one more attempt.
abbrev once_more : Operation reconciler → Operation reconciler
once_more op = attempts reconciler 1 op

abbrev key : ObjectKey
key = record { namespace = "apps"; name = "web" }

abbrev destination : Destination
destination = record {
  name = "creds";
  create = true;
  overwrite = false;
  labels = [];
  annotations = [];
  type = "";
  transformation = record {
    templates = [];
    transformation_refs = [];
    includes = [];
    excludes = [];
    exclude_raw = false;
  };
}

abbrev web : Bool → DynamicSecret
web static = record {
  meta = record {
    api_version = "v1beta1";
    kind = "VaultDynamicSecret";
    key = key;
    uid = "uid-1";
    generation = 2;
    labels = [];
    annotations = [];
  };
  deleting = false;
  finalizers = [];
  common = record {
    vault_auth_ref = "";
    namespace = "";
    destination = destination;
    secret_mac = "mac";
  };
  spec = record {
    mount = "db";
    path = "creds/app";
    request_http_method = "";
    params = [];
    renewal_percent = 67;
    allow_static_creds = static;
    refresh_after = "";
  };
  status = record {
    last_renewal_time = 1000;
    last_generation = 2;
    secret_lease = lease;
    static_creds = creds;
    last_runtime_pod_uid = "pod-1";
    client_meta = vault_client;
  };
}

abbrev creds_key : ObjectKey
creds_key = record { namespace = "apps"; name = "creds" }

abbrev written : Map String Bytes
written = ("user", 1 ∷ []) ∷ []

abbrev world : World reconciler
world = record {
  objects = (key, web true) ∷ [];
  cluster = (creds_key, record (new_secret creds_key) { contents = written }) ∷ [];
  vault = 0;
  sync_registry = (key, tt) ∷ [];
  back_offs = [];
  references = [];
  restarts = [];
  events = [];
  faults = record { read = none; status_update = none; update = none };
}

static_rotation_bounds_example :
    let o = web true in
    let d = get_rotation_duration reconciler o in
    let post = compute_post_sync_horizon reconciler o in
    let relative = (compute_relative_horizon_with_jitter reconciler o 1_000_000_000).0 in
    (d ≤ post)
    × (0 < post)
    × ((d ≡ 0) ⊎ (post < d + 650_000_000))
    × (post < d + 1_150_000_000)
    × (compute_rotation_time reconciler o ≤ reconciler.now + relative)
    × (1_000_000_000 ≤ relative)
unfolding is_static_creds
static_rotation_bounds_example =
    static_rotation_bounds reconciler (web true) 1_000_000_000 refl refl

once_more-IsRetry : IsRetry reconciler once_more
unfolding IsRetry
once_more-IsRetry op w = (1, refl)

abbrev rotated_creds : StaticCreds
rotated_creds = record {
  last_vault_rotation = 1000;
  rotation_period = 0;
  rotation_schedule = "";
  ttl = 30;
}

-- A resource whose last sync was in the rotation of a schedule, and a first answer from Vault that
-- is about to expire: the second one is synced.
abbrev scheduled : DynamicSecret
scheduled = record (web true) {
  status = record ((web true).status) {
    static_creds = record creds { rotation_schedule = "@daily"; ttl = 40 };
  };
}

abbrev near_end : Response
near_end = default_response (
    some (record {
      lease = no_lease;
      contents =
          ("last_vault_rotation", text "t")
          ∷ ("rotation_schedule", text "@daily")
          ∷ ("ttl", int 1)
          ∷ [];
    }))

rotated_awaited :
    (await_vault_secret_rotation reconciler once_more vault_client scheduled near_end 0).1
    ≡ ok (rotated_creds, rotated)
unfolding await_vault_secret_rotation vault_static_creds_meta_data_from_data rotation_time whole
    schedule contents raw_contents must_await is_static_creds Map.get in_last_sync_rotation attempts
    attempt do_vault request request_method retry_error
rotated_awaited = refl

await_vault_secret_rotation-IsFresh_example : IsFresh reconciler scheduled rotated_creds rotated
await_vault_secret_rotation-IsFresh_example =
    await_vault_secret_rotation-IsFresh reconciler once_more once_more-IsRetry vault_client
      scheduled near_end rotated 0 rotated_creds rotated_awaited

pending : Registry.has key world.sync_registry ≡ true
unfolding Registry.has Map.get object_key
pending = refl

reconcile-pending_example :
    (Registry.has key (reconcile reconciler once_more key world).0.sync_registry ≡ true)
    ⊎ IsDeleting reconciler once_more key world
    ⊎ WasSynced reconciler once_more key world
reconcile-pending_example = reconcile-pending reconciler once_more key world pending

found : get_object reconciler key world ≡ ok (web true)
unfolding get_object Map.get object_key
found = refl

abbrev start : World reconciler
start = with_references reconciler once_more key (web true) world

synced :
    (sync_secret reconciler once_more vault_client
      (with_client vault_client (web true))
      no_filter
      start).2
    ≡ ok (no_lease, false)
unfolding sync_secret do_vault request request_method join_path with_client with_references
    sync_response get_vault_secret_lease secret sync_static await_vault_secret_rotation
    vault_static_creds_meta_data_from_data rotation_time whole schedule contents raw_contents
    must_await is_static_creds in_last_sync_rotation secret_k8s_data store_static with_mac
    data_to_mac get_secret_mac handle_secret_hmac hmac_destination_secret has_mac
    get_secret_exists_for_obj get_secret_exists new_syncable_secret_meta_data read new_secret
    Map.get Map.delete object_key bytes_key same_bytes
synced = refl

ready : not (destination_exists reconciler once_more (web true) world) ≡ false
unfolding destination_exists check_secret_exists get_secret_exists_for_obj get_secret_exists
    new_syncable_secret_meta_data read new_secret Map.get object_key
ready = refl

unfoldable was_synced : WasSynced reconciler once_more key world
unfolding with_references
was_synced = record {
  object = web true;
  found = found;
  live = refl;
  ready = refl;
  client = vault_client;
  got = refl;
  synced = record {
    option = no_filter;
    option_of = refl;
    lease = no_lease;
    updated = false;
    synced = synced;
  };
}

reconcile-IsSettled_example :
    IsSettled reconciler once_more key vault_client 2 (reconcile reconciler once_more key world).0
unfolding was_synced
reconcile-IsSettled_example =
    reconcile-IsSettled reconciler once_more key world
      (record { read = refl; status_update = refl; update = refl }) pending was_synced refl
      (omega arith)
