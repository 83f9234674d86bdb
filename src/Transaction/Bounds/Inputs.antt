-- ===== src/Transaction/Bounds/Inputs.antt =====
-- The raw result bound of an envelope against the largest read that a step event may carry
-- (bounds.rs, `raw_result_bound_max`, `largest_read_bytes`; machine/mod.rs, `Limits`).
use policysql.Prelude.{ℕ, ◌+◌, ◌*◌, ◌≤◌, List, length, arith, usize_max}
use policysql.Transaction.Bounds.{
  column_metadata_bytes, raw_result_bound, raw_result_bound_max, largest_read_bytes,
}
use policysql.Transaction.Machine.Limits.{Limits, largest_read}

-- The bytes that a result can take under the limits, all of them at their maximum.
abbrev pub most_bytes : Limits → ℕ
most_bytes l =
    2 * l.max_result_bytes
    + 64 * l.max_json_values
    + 512 * l.max_statements
    + column_metadata_bytes
    + 1024

-- If all limits together fit a `usize`, the bound of a compiled envelope never passes the largest
-- read that an event may carry, however many rows and columns its statements have, if they are at
-- most as many as allowed and the column metadata is within its guard.
pub raw_result_bound-largest_read :
    (l : Limits) (statements : List (ℕ × ℕ)) (m : ℕ)
    → most_bytes l ≤ usize_max
    → length statements ≤ l.max_statements
    → m ≤ column_metadata_bytes
    → raw_result_bound l.max_result_bytes l.max_json_values statements m ≤ largest_read l
unfolding raw_result_bound raw_result_bound_max largest_read largest_read_bytes
raw_result_bound-largest_read l statements m small fits guarded = ground arith
