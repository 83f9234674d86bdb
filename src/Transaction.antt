-- ===== src/Transaction.antt =====
-- crates/policysql-transaction: the pure transaction rules, one module for each source file.
pub mod Bounds
pub mod Machine
pub mod Canonical
pub mod Strict
pub mod Identity
pub mod Cost
