-- ===== src/Tests.antt =====
-- Runs at concrete inputs: the theorems applied where their hypotheses hold.
mod Data
mod Texts
mod Readings
mod Reconciling
mod Requesting
mod Rendering
mod Integrating
