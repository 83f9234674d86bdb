-- ===== src/Transaction/Bounds.antt =====
-- crates/policysql-transaction/src/bounds.rs: the byte bounds derived from the configured limits.
-- Every sum and product saturates as it does in the source: at 2^32 - 1 on a `usize`, which is that
-- of wasm32, and at 2^64 - 1 on a `u64`.
pub mod Raw
pub mod Inputs
use policysql.Prelude.{
  ℕ, ◌+◌, ◌*◌, ◌%◌, ◌^◌, List, [], ◌∷◌, ltb, length, if◌then◌else◌, sat_add, sat_mul, sat_sub,
  usize_add, usize_mul,
}
use Prim.Native.Nat.{min}

abbrev pub session_input_bytes : ℕ
session_input_bytes = 65536

abbrev pub auth_bytes : ℕ
auth_bytes = 2 * session_input_bytes + 1024

abbrev pub binding_bytes : ℕ
binding_bytes = 2048

abbrev pub key_bytes : ℕ
key_bytes = 128

abbrev pub input_framing_bytes : ℕ
input_framing_bytes = 1024

abbrev pub event_framing_bytes : ℕ
event_framing_bytes = 4096

unfoldable pub compile_input_bytes : ℕ → ℕ
compile_input_bytes max_request_bytes =
    usize_add (usize_add auth_bytes max_request_bytes) input_framing_bytes

unfoldable pub hash_input_bytes : ℕ → ℕ
hash_input_bytes max_request_bytes =
    usize_add
      (usize_add (usize_add (usize_add auth_bytes binding_bytes) key_bytes)
        (usize_mul max_request_bytes 2))
      input_framing_bytes

abbrev pub hrana_cell_bytes : ℕ
hrana_cell_bytes = 64

abbrev pub hrana_statement_bytes : ℕ
hrana_statement_bytes = 512

abbrev pub hrana_envelope_bytes : ℕ
hrana_envelope_bytes = 1024

abbrev pub column_metadata_bytes : ℕ
column_metadata_bytes = 1048576

abbrev pub hard_max_response_bytes : ℕ
hard_max_response_bytes = 589824

abbrev pub lookup_bytes : ℕ
lookup_bytes = 2 * hard_max_response_bytes + 4096

-- The columns of all statements: `sum` on `u64`, which wraps in a release build.
unfoldable pub columns_of : List (ℕ × ℕ) → ℕ
columns_of [] = 0
columns_of ((rows, columns) ∷ rest) = (columns + columns_of rest) % 2 ^ 64

-- The cells of all statements: the fold starts at 0 and adds from the left.
unfoldable pub cells_from : ℕ → List (ℕ × ℕ) → ℕ
cells_from total [] = total
cells_from total ((rows, columns) ∷ rest) = cells_from (sat_add total (sat_mul rows columns)) rest

-- `statements` holds the row limit and the column count of each.
unfoldable pub raw_result_bound : ℕ → ℕ → List (ℕ × ℕ) → ℕ → ℕ
raw_result_bound max_result_bytes max_json_values statements metadata_bytes =
    let cells = min (cells_from 0 statements) (sat_sub max_json_values (columns_of statements)) in
    sat_add
      (sat_add
        (sat_add (sat_add (sat_mul max_result_bytes 2) (sat_mul cells hrana_cell_bytes))
          (sat_mul (length statements) hrana_statement_bytes))
        metadata_bytes)
      hrana_envelope_bytes

unfoldable pub raw_result_bound_max : ℕ → ℕ → ℕ → ℕ
raw_result_bound_max max_result_bytes max_json_values max_statements =
    usize_add
      (usize_add
        (usize_add
          (usize_add (usize_mul max_result_bytes 2) (usize_mul max_json_values hrana_cell_bytes))
          (usize_mul max_statements hrana_statement_bytes))
        column_metadata_bytes)
      hrana_envelope_bytes

unfoldable pub largest_read_bytes : ℕ → ℕ
largest_read_bytes raw_bound_max =
    if ltb lookup_bytes raw_bound_max then raw_bound_max else lookup_bytes

unfoldable pub event_bytes : ℕ → ℕ → ℕ
event_bytes max_request_bytes result_bytes =
    usize_add
      (usize_add (usize_add (usize_add (usize_mul max_request_bytes 2) auth_bytes) binding_bytes)
        result_bytes)
      event_framing_bytes

-- `machine::MAX_VOLATILE_BYTES`.
abbrev pub max_volatile_bytes : ℕ
max_volatile_bytes = 256 * 1024

unfoldable pub volatile_bytes : ℕ → ℕ → ℕ
volatile_bytes max_request_bytes max_response_bytes =
    let response = usize_mul max_response_bytes 2 in
    let held = if ltb lookup_bytes response then response else lookup_bytes in
    usize_add (usize_add max_volatile_bytes (usize_mul max_request_bytes 2)) held
