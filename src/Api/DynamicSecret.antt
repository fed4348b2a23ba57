-- ===== src/Api/DynamicSecret.antt =====
-- api/v1beta1/vaultdynamicsecret_types.go. Seconds and times are not negative, as Vault sends them.
use vault_secrets_operator.Base.{ℕ, String, Bool, List}
use vault_secrets_operator.Base.Map.{Map}
use vault_secrets_operator.Api.Syncable.{Meta, VaultSpec, Object, vault_dynamic_secret}

pub record Lease : Type 0 where  -- VaultSecretLease
  pub id : String
  pub lease_duration : ℕ
  pub renewable : Bool
  pub request_id : String

pub record StaticCreds : Type 0 where  -- VaultStaticCredsMetaData
  pub last_vault_rotation : ℕ
  pub rotation_period : ℕ
  pub rotation_schedule : String
  pub ttl : ℕ

pub record ClientMeta : Type 0 where  -- VaultClientMeta
  pub cache_key : String
  pub id : String

-- The fields that a VaultDynamicSecret has beyond those of every syncable resource.
pub record DynamicSpec : Type 0 where
  pub mount : String
  pub path : String
  pub request_http_method : String
  pub params : Map String String
  pub renewal_percent : ℕ
  pub allow_static_creds : Bool
  pub refresh_after : String

-- `secret_mac` is in the VaultSpec.
pub record DynamicStatus : Type 0 where
  pub last_renewal_time : ℕ
  pub last_generation : ℕ
  pub secret_lease : Lease
  pub static_creds : StaticCreds
  pub last_runtime_pod_uid : String
  pub client_meta : ClientMeta

pub record DynamicSecret : Type 0 where
  pub meta : Meta
  pub deleting : Bool  -- GetDeletionTimestamp() != nil
  pub finalizers : List String
  pub common : VaultSpec
  pub spec : DynamicSpec
  pub status : DynamicStatus

abbrev pub to_object : DynamicSecret → Object
to_object o = vault_dynamic_secret o.meta o.common
