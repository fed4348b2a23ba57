-- ===== src/Helpers.antt =====
-- The helpers package: the sync of a destination Secret, and what goes into it.
pub mod Owner
pub mod Exists
pub mod Sync
pub mod Filter
pub mod Data
pub mod Templates
pub mod Hmac
