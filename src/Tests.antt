-- ===== src/Tests.antt =====
-- Concrete runs of the operations, and the theorems at them.
pub mod Samples
pub mod Conductor
pub mod Worker
pub mod Ingest
pub mod Clock
pub mod System
pub mod Service
