-- ===== src/Api/Syncable.antt =====
-- The custom resources that are synced to a Secret, with the fields that every one of them has.
use vault_secrets_operator.Base.{ℕ, String}
use vault_secrets_operator.Base.Map.{Map}
use vault_secrets_operator.Api.Names.{ObjectKey}
use vault_secrets_operator.Api.Destination.{Destination}

pub record Meta : Type 0 where
  pub api_version : String
  pub kind : String
  pub key : ObjectKey
  pub uid : String
  pub generation : ℕ
  pub labels : Map String String
  pub annotations : Map String String

pub record VaultSpec : Type 0 where
  pub vault_auth_ref : String
  pub namespace : String
  pub destination : Destination
  pub secret_mac : String  -- Status.SecretMAC

pub record HcpSpec : Type 0 where
  pub hcp_auth_ref : String
  pub destination : Destination
  pub secret_mac : String  -- Status.SecretMAC

-- A client.Object: one of the syncable resources, or any other object.
pub data Object : Type 0 where
  vault_dynamic_secret : Meta → VaultSpec → Object
  vault_static_secret : Meta → VaultSpec → Object
  vault_pki_secret : Meta → VaultSpec → Object
  hcp_vault_secrets_app : Meta → HcpSpec → Object
  other : Meta → Object

abbrev pub meta_of : Object → Meta
meta_of (vault_dynamic_secret m s) = m
meta_of (vault_static_secret m s) = m
meta_of (vault_pki_secret m s) = m
meta_of (hcp_vault_secrets_app m s) = m
meta_of (other m) = m
