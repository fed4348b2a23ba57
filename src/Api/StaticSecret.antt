-- ===== src/Api/StaticSecret.antt =====
-- api/v1beta1/vaultstaticsecret_types.go.
use vault_secrets_operator.Base.{ℕ, String, Bool, List, Option}
use vault_secrets_operator.Api.Syncable.{Meta, VaultSpec, Object, vault_static_secret}

-- The fields that a VaultStaticSecret has beyond those of every syncable resource.
pub record StaticSpec : Type 0 where
  pub mount : String
  pub path : String
  pub version : ℕ
  pub type : String
  pub refresh_after : String
  pub hmac_secret_data : Option Bool  -- a pointer
  pub sync_config : Option Bool  -- the InstantUpdates of a SyncConfig

-- `secret_mac` of the status is in the VaultSpec.
pub record StaticSecret : Type 0 where
  pub meta : Meta
  pub deleting : Bool  -- GetDeletionTimestamp() != nil
  pub finalizers : List String
  pub common : VaultSpec
  pub spec : StaticSpec
  pub last_generation : ℕ  -- Status.LastGeneration

abbrev pub to_object : StaticSecret → Object
to_object o = vault_static_secret o.meta o.common
