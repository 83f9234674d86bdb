-- ===== src/Transaction/Machine/Time/Calendar.antt =====
-- The date of a day number against the calendar: a year has 365 days, or 366 when it is divisible
-- by 4 and not by 100, or by 400.
use policysql.Prelude.{
  ℕ, ◌+◌, ◌-◌, ◌*◌, ◌/◌, ◌%◌, ◌≡◌, ◌≤◌, ◌<◌, Bool, false, ◌&&◌, ◌||◌, not, ◌==◌, leb, arith,
  if◌then◌else◌, Bool-cases, inl, inr,
}
use policysql.Transaction.Machine.Time.{
  Civil, year_of_era, day_of_year, march_month, civil_of, civil_from_days,
}

-- Days from 0000-03-01 to a date: whole years, the leap days in them, the months before, and days.
unfoldable pub day_number : Civil → ℕ
day_number c =
    let y : ℕ = if leb c.month 2 then c.year - 1 else c.year in
    let mp : ℕ = if leb c.month 2 then c.month + 9 else c.month - 3 in
    365 * y + y / 4 - y / 100 + y / 400 + (153 * mp + 2) / 5 + (c.day - 1)

unfoldable pub is_leap : ℕ → Bool
is_leap y = y % 4 == 0 && (not (y % 100 == 0) || y % 400 == 0)

-- The days of the month of a date.
unfoldable pub days_in : Civil → ℕ
unfolding is_leap
days_in c =
    if c.month == 2
    then (if is_leap c.year then 29 else 28)
    else if c.month == 4 || c.month == 6 || c.month == 9 || c.month == 11
    then 30
    else 31

year_of_era-day :
    (doe : ℕ)
    → doe < 146097
    → (365 * year_of_era doe + year_of_era doe / 4 - year_of_era doe / 100 ≤ doe)
      × (day_of_year doe (year_of_era doe) ≤ 365)
      × (year_of_era doe ≤ 399)
      × (doe
          < 365 * (year_of_era doe + 1)
            + (year_of_era doe + 1) / 4
            - (year_of_era doe + 1) / 100
            + (year_of_era doe + 1) / 400)
unfolding year_of_era day_of_year
year_of_era-day doe h = omega arith

-- The last day of a March year is there only in a year before a leap February.
day_of_year-is_leap :
    (era doe yoe : ℕ)
    → 365 * yoe + yoe / 4 - yoe / 100 ≤ doe
    → yoe ≤ 399
    → doe < 365 * (yoe + 1) + (yoe + 1) / 4 - (yoe + 1) / 100 + (yoe + 1) / 400
    → is_leap (yoe + era * 400 + 1) ≡ false
    → day_of_year doe yoe ≤ 364
unfolding is_leap day_of_year
day_of_year-is_leap era doe yoe low top next common = ground arith

civil_of-days_in :
    (era yoe doy : ℕ)
    → doy ≤ 365
    → (is_leap (yoe + era * 400 + 1) ≡ false → doy ≤ 364)
    → (civil_of era yoe doy (march_month doy)).day
      ≤ days_in (civil_of era yoe doy (march_month doy))
unfolding days_in march_month
civil_of-days_in era yoe doy high common = elim (Bool-cases (is_leap (yoe + era * 400 + 1))) [
  | inl e ↦ ground arith
  | inr e ↦ let short = common e in ground arith
]

module _ (era doe yoe : ℕ) where
  abbrev date : Civil
  date = civil_of era yoe (day_of_year doe yoe) (march_month (day_of_year doe yoe))

  -- The date of a day of an era, in whichever half of the March year it falls.
  date-day_number :
      (z : ℕ)
      → z ≡ era * 146097 + doe
      → 365 * yoe + yoe / 4 - yoe / 100 ≤ doe
      → doe - (365 * yoe + yoe / 4 - yoe / 100) ≤ 365
      → yoe ≤ 399
      → (day_number date ≡ z) × (1 ≤ date.month) × (date.month ≤ 12) × (1 ≤ date.day)
  unfolding day_number march_month day_of_year
  date-day_number z split low high top = ground arith

-- The date of a day is the one whose day number is that day's, and it is a date of the calendar:
-- its month is one of the twelve, and its day one of that month in that year.
pub civil_from_days-day_number :
    (days : ℕ)
    → (day_number (civil_from_days days) ≡ days + 719468)
      × (1 ≤ (civil_from_days days).month)
      × ((civil_from_days days).month ≤ 12)
      × (1 ≤ (civil_from_days days).day)
      × ((civil_from_days days).day ≤ days_in (civil_from_days days))
unfolding civil_from_days
civil_from_days-day_number days =
    let z = days + 719468 in
    let era = z / 146097 in
    let doe = z - era * 146097 in
    let small : doe < 146097 = omega arith in
    let split : z ≡ era * 146097 + doe = omega arith in
    let (low, high, top, next) = year_of_era-day doe small in
    let (number, first, last, day) =
      date-day_number era doe (year_of_era doe) z split low (unfold day_of_year in high) top in
    (
      number,
      first,
      last,
      day,
      civil_of-days_in era (year_of_era doe) (day_of_year doe (year_of_era doe)) high
          (day_of_year-is_leap era doe (year_of_era doe) low top next),
    )
