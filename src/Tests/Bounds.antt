-- ===== src/Tests/Bounds.antt =====
-- The theorems on the bounds, applied to one statement of two rows and three columns.
use policysql.Transaction.Machine.Time.{civil_from_days}
use policysql.Transaction.Machine.Time.Calendar.{day_number, days_in, civil_from_days-day_number}
use policysql.Prelude.{ℕ, ◌≤◌, ◌≡◌, List, [], ◌∷◌, arith}
use policysql.Transaction.Bounds.{raw_result_bound}
use policysql.Transaction.Bounds.Raw.{raw_result_bound-covers}
use policysql.Transaction.Bounds.Inputs.{raw_result_bound-largest_read}
use policysql.Transaction.Machine.Limits.{largest_read}
use policysql.Tests.Samples.{sample_limits}

abbrev one_statement : List (ℕ × ℕ)
one_statement = (2, 3) ∷ []

raw_result_bound-largest_read_example :
    raw_result_bound sample_limits.max_result_bytes sample_limits.max_json_values one_statement 10
    ≤ largest_read sample_limits
raw_result_bound-largest_read_example =
    raw_result_bound-largest_read sample_limits one_statement 10 (omega arith) (omega arith)
      (omega arith)

raw_result_bound-covers_example : 1000 ≤ raw_result_bound 1000 100 one_statement 10
raw_result_bound-covers_example =
    raw_result_bound-covers 1000 100 (2 ∷ []) one_statement 10 1000 (omega arith, tt) (omega arith)
      (omega arith) (omega arith) (omega arith)

civil_from_days-day_number_example :
    (day_number (civil_from_days 20756) ≡ 740224)
    × (1 ≤ (civil_from_days 20756).month)
    × ((civil_from_days 20756).month ≤ 12)
    × (1 ≤ (civil_from_days 20756).day)
    × ((civil_from_days 20756).day ≤ days_in (civil_from_days 20756))
civil_from_days-day_number_example = civil_from_days-day_number 20756
