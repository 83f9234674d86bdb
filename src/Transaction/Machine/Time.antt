-- ===== src/Transaction/Machine/Time.antt =====
-- crates/policysql-transaction/src/machine/time.rs: the civil date and the time of day of
-- milliseconds since the Unix epoch. Their padding into a text is not modelled.
pub mod Calendar
use policysql.Prelude.{ℕ, ◌+◌, ◌-◌, ◌*◌, ◌/◌, ◌%◌, ◌≡◌, ◌≤◌, ◌<◌, leb, ltb, arith, if◌then◌else◌}

pub record Civil : Type 0 where
  pub year : ℕ
  pub month : ℕ
  pub day : ℕ

pub record Clock : Type 0 where
  pub hour : ℕ
  pub minute : ℕ
  pub second : ℕ
  pub millis : ℕ

-- The parts of `civil_from_days`: the year of the era, the day of that year, and its month, with
-- March as the first.
unfoldable pub year_of_era : ℕ → ℕ
year_of_era doe = (doe - doe / 1460 + doe / 36524 - doe / 146096) / 365

unfoldable pub day_of_year : ℕ → ℕ → ℕ
day_of_year doe yoe = doe - (365 * yoe + yoe / 4 - yoe / 100)

unfoldable pub march_month : ℕ → ℕ
march_month doy = (5 * doy + 2) / 153

abbrev pub civil_of : ℕ → ℕ → ℕ → ℕ → Civil
civil_of era yoe doy mp =
    let month : ℕ = if ltb mp 10 then mp + 3 else mp - 9 in
    record {
      year = yoe + era * 400 + (if leb month 2 then 1 else 0);
      month = month;
      day = doy - (153 * mp + 2) / 5 + 1;
    }

unfoldable pub civil_from_days : ℕ → Civil
unfolding year_of_era day_of_year march_month
civil_from_days days =
    let z : ℕ = days + 719468 in
    let era : ℕ = z / 146097 in
    let doe : ℕ = z - era * 146097 in
    let yoe : ℕ = year_of_era doe in
    let doy : ℕ = day_of_year doe yoe in civil_of era yoe doy (march_month doy)

unfoldable pub clock_from_ms : ℕ → Clock
clock_from_ms ms =
    let seconds : ℕ = ms / 1000 in
    record {
      hour = seconds / 3600 % 24;
      minute = seconds / 60 % 60;
      second = seconds % 60;
      millis = ms % 1000;
    }

unfoldable pub civil_from_ms : ℕ → Civil
unfolding civil_from_days
civil_from_ms ms = civil_from_days (ms / 1000 / 86400)
