-- ===== src/Vault.antt =====
-- The vault package: the clients of Vault that the operator keeps.
pub mod CacheKey
pub mod Lru
pub mod Cache
pub mod Requests
pub mod Responses
pub mod Client
