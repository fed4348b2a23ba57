-- ===== src/Controllers.antt =====
-- The controllers package: the caches and registries its reconcilers share, and their helpers.
pub mod References
pub mod Registry
pub mod BackOff
pub mod Conditions
pub mod Horizon
pub mod EventHandlers
pub mod Reconciler
pub mod DynamicSecret
pub mod StaticSecret
pub mod PkiSecret
pub mod Finalizers
