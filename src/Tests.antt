-- ===== src/Tests.antt =====
-- Sample states of the machine, and the theorems applied to them.
pub mod Samples
pub mod Machine
pub mod Bounds
pub mod Records
pub mod Timer
pub mod Canonical
pub mod Checks
