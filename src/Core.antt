-- ===== src/Core.antt =====
-- The package app/core: enumerations, settings, tables, the virtual clock and the scenario.
pub mod Enums
pub mod Settings
pub mod Models
pub mod Clock
pub mod Scenario
pub mod Registry
pub mod Runner
