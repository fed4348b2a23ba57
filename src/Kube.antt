-- ===== src/Kube.antt =====
-- The Kubernetes API as the operator's client shows it.
pub mod Client
pub mod Memory
