-- ===== src/Api.antt =====
-- The objects of the Kubernetes API that the operator's packages pass around.
pub mod Names
pub mod Secret
pub mod Destination
pub mod Syncable
pub mod DynamicSecret
pub mod StaticSecret
pub mod PkiSecret
pub mod Transformation
pub mod AuthConfig
pub mod VaultAuth
