-- ===== src/Migration.antt =====
-- The migration of FrontendIntegrations to FrontendExtensions
-- (crates/frontend-forge-controller/src/bin/fi_to_fe_migrator).
pub mod Naming
pub mod Config
pub mod Publish
pub mod Handover
