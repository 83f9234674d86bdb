-- ===== src/Transaction/Machine/Step/Abandoned.antt =====
-- The record that `abandon` leaves (step.rs).
use policysql.Transaction.Machine.Step.Context.{Context, Step}
