-- ===== src/System.antt =====
-- The processes together: what one does to the rows of another.
pub mod Late
pub mod Rows
pub mod Conducts
pub mod Turns
pub mod Life
pub mod Works
pub mod Steps
pub mod Invariant
pub mod Reach
pub mod Lives
pub mod Orders
pub mod Serves
pub mod Passes
pub mod Ledger
pub mod Attempts
