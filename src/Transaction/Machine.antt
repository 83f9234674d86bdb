-- ===== src/Transaction/Machine.antt =====
-- crates/policysql-transaction/src/machine: the transaction step machine.
pub mod Limits
pub mod State
pub mod Value
pub mod Connection
pub mod Compiler
pub mod Volatile
pub mod Io
pub mod Step
pub mod Time
