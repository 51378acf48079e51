-- ===== src/Worker.antt =====
-- The package app/worker: claiming, attempting and completing deliveries.
pub mod Backoff
pub mod Claim
pub mod Complete
pub mod Transport
pub mod Service
