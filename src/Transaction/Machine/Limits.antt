-- ===== src/Transaction/Machine/Limits.antt =====
-- crates/policysql-transaction/src/machine/mod.rs: the constants of the machine and the runtime
-- limits that it enforces.
use policysql.Prelude.{ℕ, ltb, to_usize, if◌then◌else◌}
use policysql.Transaction.Bounds

abbrev pub max_safe_integer : ℕ
max_safe_integer = 9007199254740991

abbrev pub max_time_ms : ℕ
max_time_ms = 253402214399999

pub record Limits : Type 0 where
  pub transaction_ms : ℕ
  pub max_transaction_statements : ℕ
  pub max_transaction_result_bytes : ℕ
  pub begin_timeout_ms : ℕ
  pub max_callback_rows : ℕ
  pub max_statements : ℕ
  pub max_request_bytes : ℕ
  pub max_result_bytes : ℕ
  pub max_json_values : ℕ
  pub max_response_bytes : ℕ

-- `Limits::max_volatile_bytes`, and `Limits::max_request_bytes`.
unfoldable pub volatile_bound : Limits → ℕ
volatile_bound l =
    Bounds.volatile_bytes (to_usize l.max_request_bytes) (to_usize l.max_response_bytes)

-- `Limits::largest_read_bytes`; `max_statements.max(1)`.
unfoldable pub largest_read : Limits → ℕ
largest_read l = Bounds.largest_read_bytes (
    Bounds.raw_result_bound_max (to_usize l.max_result_bytes) (to_usize l.max_json_values)
      (to_usize (if ltb l.max_statements 1 then 1 else l.max_statements)))

-- `Limits::max_event_bytes`.
unfoldable pub event_bound : Limits → ℕ
event_bound l = Bounds.event_bytes (to_usize l.max_request_bytes) (largest_read l)
