-- ===== src/Common.antt =====
-- common/common.go: what the syncable resources have in common, references between resources, and
-- the merge of a VaultAuthGlobal into a VaultAuth.
pub mod Errors
pub mod Refs
pub mod Metadata
pub mod Merge
pub mod VaultAuth
