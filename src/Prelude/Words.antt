-- ===== src/Prelude/Words.antt =====
-- Unsigned words: `u64`, `u32`, and `usize` as it is on wasm32, the target that is deployed.
use Prim.Native.Nat.{ℕ, ◌+◌, ◌-◌, ◌*◌, ◌%◌, ◌^◌, min}
use mathlib.Core.Option.{Option, none, some}
use policysql.Prelude.Tests.{leb, if◌then◌else◌}

abbrev pub u64_max : ℕ
u64_max = 18446744073709551615

-- `saturating_add`, `saturating_mul`, `saturating_sub`, `checked_add`.
abbrev pub sat_add : ℕ → ℕ → ℕ
sat_add a b = min (a + b) u64_max

abbrev pub sat_mul : ℕ → ℕ → ℕ
sat_mul a b = min (a * b) u64_max

abbrev pub sat_sub : ℕ → ℕ → ℕ
sat_sub a b = a - b

abbrev pub checked_add : ℕ → ℕ → Option ℕ
checked_add a b = if leb (a + b) u64_max then some (a + b) else none

abbrev pub usize_max : ℕ
usize_max = 4294967295

-- `saturating_add` and `saturating_mul` on `usize`, and `usize::try_from(..).unwrap_or(usize::MAX)`.
abbrev pub usize_add : ℕ → ℕ → ℕ
usize_add a b = min (a + b) usize_max

abbrev pub usize_mul : ℕ → ℕ → ℕ
usize_mul a b = min (a * b) usize_max

abbrev pub to_usize : ℕ → ℕ
to_usize a = min a usize_max

-- The largest `u32`.
abbrev pub u32_max : ℕ
u32_max = 4294967295

-- `+` on `u32`, which wraps in a release build.
abbrev pub u32_add : ℕ → ℕ → ℕ
u32_add a b = (a + b) % 2 ^ 32
