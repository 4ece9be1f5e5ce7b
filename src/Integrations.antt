-- ===== src/Integrations.antt =====
-- The FrontendIntegration controller (crates/frontend-forge-controller/src/fi).
pub mod Config
pub mod Bundle
pub mod Build
pub mod Status
pub mod Reconcile
pub mod Allowed
pub mod Bundles
pub mod Sound
pub mod Settled
