-- ===== src/Controller.antt =====
-- The FrontendExtension controller (crates/frontend-extension-controller/src).
pub mod Config
pub mod Times
pub mod Integers
pub mod JobShape
pub mod Package
pub mod Artifact
pub mod Publish
pub mod Unpublish
pub mod Status
pub mod Calls
pub mod Sync
pub mod Writes
pub mod Reconcile
