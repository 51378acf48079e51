-- ===== src/Api.antt =====
-- The package app/api: the simulation lifecycle and ingest.
pub mod Ingest
pub mod Producer
pub mod Routes
