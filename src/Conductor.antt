-- ===== src/Conductor.antt =====
-- The package app/conductor: policy, admission, metrics, the reaper and the pass.
pub mod Policy
pub mod Admission
pub mod Selection
pub mod Reaper
pub mod Service
pub mod Leader
pub mod Gauges
pub mod Metrics
