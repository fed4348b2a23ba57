-- ===== src/Controllers/PkiSecret/Reconcile/Examples.antt =====
-- A VaultPKISecret with a cluster in memory and a Vault that issues one certificate.
use vault_secrets_operator.Base.{
  ℕ, suc, ◌+◌, ◌*◌, ◌/◌, ◌++◌, ◌≡◌, ◌≤◌, ◌<◌, ◌↔◌, ◌⊎◌, refl, String, true, false, none, some, [],
  ◌∷◌, text_key,
}
use vault_secrets_operator.Base.Map
use vault_secrets_operator.Base.Map.{Map}
use vault_secrets_operator.Base.Result.{Result, ok, err}
use vault_secrets_operator.Api.Names.{ObjectKey, object_key}
use vault_secrets_operator.Api.Secret.{Bytes}
use vault_secrets_operator.Api.DynamicSecret.{ClientMeta}
use vault_secrets_operator.Api.PkiSecret.{PkiSecret, join}
use vault_secrets_operator.Kube.Memory.{memory}
use vault_secrets_operator.Common.Errors.{Error, library}
use vault_secrets_operator.Helpers.Hmac.{new_hmac_validator}
use vault_secrets_operator.Vault.Client.{Factory}
use vault_secrets_operator.Vault.Responses.{Value, ApiSecret, default_response}
use vault_secrets_operator.Controllers.Registry
use vault_secrets_operator.Controllers.Horizon.{nanoseconds}
use vault_secrets_operator.Controllers.Reconciler.{Reconciler}
use vault_secrets_operator.Controllers.PkiSecret.{World, get_object}
use vault_secrets_operator.Controllers.PkiSecret.Window.{
  expiry_offset, compute_expiration_time_pki, compute_pki_renewal_window,
}
use vault_secrets_operator.Controllers.PkiSecret.Window.Bounds.{renewal_window_bounds}
use vault_secrets_operator.Controllers.PkiSecret.Tls.{
  copy_entry, not_empty, append_ca, convert_to_k8s_tls_secret_data,
}
use vault_secrets_operator.Controllers.PkiSecret.Issue.{PkiCertResponse, get_path}
use vault_secrets_operator.Controllers.PkiSecret.Issue.Pending.{pending, Ending}
use vault_secrets_operator.Controllers.PkiSecret.Reconcile.{reconcile}
use vault_secrets_operator.Controllers.PkiSecret.Reconcile.Pending.{reconcile-Ending}

abbrev issued_secret : ApiSecret
issued_secret = record {
  lease = record { id = ""; lease_duration = 0; renewable = false; request_id = "" };
  contents = [];
}

abbrev vault_client : ClientMeta
vault_client = record { cache_key = "kubernetes-1"; id = "client-1" }

abbrev counting : Factory
counting = record {
  Vault = ℕ;
  get_client = λ obj v. (v, ok vault_client);
  read = λ c request v. (suc v, ok none);
  write = λ c path params v. (suc v, ok (some (default_response (some issued_secret))));
  taint = λ c v. v;
}

abbrev hash : Bytes → Bytes → Bytes
hash key message = message ++ key

abbrev hmac_key : ObjectKey
hmac_key = record { namespace = "vso"; name = "hmac" }

abbrev reconciler : Reconciler
reconciler = record {
  client = memory;
  factory = counting;
  validator = new_hmac_validator memory hash hmac_key;
  hash = hash;
  runtime_pod_uid = "";
  gvk = λ obj. some ("v1beta1", "VaultPKISecret");
  transformation_option = λ obj. ok (record {
    excludes = [];
    includes = [];
    annotations = [];
    labels = [];
    keyed_templates = [];
    exclude_raw = true;
  });
  build = λ m raw opt. ok [];
  encode = λ m. err (library 1);
  decode = λ t. ok [];
  encode_string = λ b. "mac";
  parse_duration = λ t. ok (nanoseconds 0);
  parse_time = λ t. ok 0;
  parse_int = λ t. ok 0;
  RetryState = ℕ;
  fresh = 1;
  next = λ draw n. (some n, 2 * n);
  now = 5_000_000_000_000;
  random = λ i. 7;
}

abbrev key : ObjectKey
key = record { namespace = "apps"; name = "web" }

abbrev web : PkiSecret
web = record {
  meta = record {
    api_version = "v1beta1";
    kind = "VaultPKISecret";
    key = key;
    uid = "uid-1";
    generation = 2;
    labels = [];
    annotations = [];
  };
  deleting = false;
  finalizers = [];
  common = record {
    vault_auth_ref = "";
    namespace = "";
    destination = record {
      name = "creds";
      create = true;
      overwrite = false;
      labels = [];
      annotations = [];
      type = "";
      transformation = record {
        templates = [];
        transformation_refs = [];
        includes = [];
        excludes = [];
        exclude_raw = false;
      };
    };
    secret_mac = "";
  };
  spec = record {
    mount = "pki";
    role = "web";
    revoke = true;
    clear = false;
    expiry_offset = "";
    issuer_ref = "";
    common_name = "web.example";
    alt_names = [];
    ip_sans = [];
    uri_sans = [];
    other_sans = [];
    user_ids = [];
    time_to_live = "";
    format = "";
    private_key_format = "";
    not_after = "";
    exclude_cn_from_sans = false;
  };
  status = record {
    serial_number = "";
    expiration = 6_000;
    last_generation = 0;
    last_rotation = 0;
    valid = none;
    error = "";
  };
}

abbrev from_json : Map String Value → Result Error PkiCertResponse
from_json m = ok (record {
  ca_chain = "root" ∷ [];
  certificate = "leaf";
  expiration = 8_600;
  issuing_ca = "root";
  private_key = "key";
  private_key_type = "rsa";
  serial_number = "01";
})

abbrev bytes : String → Bytes
bytes t = 1 ∷ []

abbrev due : World reconciler
due = record {
  objects = (key, web) ∷ [];
  cluster = [];
  vault = 0;
  sync_registry = (key, tt) ∷ [];
  back_offs = [];
  references = [];
  restarts = [];
  events = [];
  faults = record { read = none; status_update = none; update = none };
}

issue_path : get_path web.spec ≡ "pki/issue/web"
unfolding get_path join
issue_path = refl

-- The chain is appended to the certificate.
tls_chain :
    convert_to_k8s_tls_secret_data (("certificate", 1 ∷ []) ∷ ("ca_chain", 2 ∷ []) ∷ [])
    ≡ ("tls.crt", 1 ∷ 10 ∷ 2 ∷ []) ∷ ("certificate", 1 ∷ []) ∷ ("ca_chain", 2 ∷ []) ∷ []
unfolding convert_to_k8s_tls_secret_data copy_entry append_ca not_empty Map.get Map.put Map.delete
tls_chain = refl

found : get_object reconciler key due ≡ ok web
unfolding get_object Map.get object_key
found = refl

is_due : pending reconciler from_json bytes key due ≡ true
unfolding Registry.has Map.get object_key
is_due = refl

reconcile-Ending_example :
    Ending reconciler from_json bytes key web due (reconcile reconciler from_json bytes key due)
reconcile-Ending_example =
    reconcile-Ending reconciler from_json bytes key web due found refl refl is_due

renewal_window_bounds_example :
    let (horizon, in_window) =
      compute_pki_renewal_window reconciler.parse_duration reconciler.now 7 web in
    let rotation =
      compute_expiration_time_pki web
        (expiry_offset reconciler.parse_duration web / 1_000_000_000) in
    ((in_window ≡ true) ↔ (rotation < reconciler.now + 1_000_000_000))
    × ((in_window ≡ true) × (1_000_000_000 ≤ horizon)
        ⊎ ((0 < expiry_offset reconciler.parse_duration web) × (rotation ≤ reconciler.now + horizon)
            ⊎ ((expiry_offset reconciler.parse_duration web ≡ 0)
                × (reconciler.now + horizon ≤ rotation))))
renewal_window_bounds_example = renewal_window_bounds reconciler.parse_duration reconciler.now 7 web
