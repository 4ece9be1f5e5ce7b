-- ===== src/Api.antt =====
-- The resource types of crates/api/src/fe.rs, and the Kubernetes types that they are used with.
pub mod Kube
pub mod Fields
pub mod Spec
pub mod Status
pub mod Extension
pub mod Integration
