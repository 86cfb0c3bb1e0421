-- ===== src/Model/Calendar.antt =====
-- Python's proleptic Gregorian calendar, by days since 0001-01-01, which is day 0 and a Monday.
pub mod Years
pub mod Dates
use personal_deadline_manage.Common.{
  ℕ, zero, suc, ◌+◌, ◌-◌, ◌*◌, ◌/◌, ◌%◌, Bool, true, false, ◌&&◌, ◌||◌, not, ◌==◌, ltb, leb,
  if◌then◌else◌,
}

unfoldable pub is_leap : ℕ → Bool
is_leap y = (y % 4 == 0) && (not (y % 100 == 0) || (y % 400 == 0))

-- `calendar.monthrange(year, month)[1]`
unfoldable pub days_in_month : ℕ → ℕ → ℕ
unfolding is_leap
days_in_month y m =
    if m == 2
    then (if is_leap y then 29 else 28)
    else if (m == 4) || (m == 6) || (m == 9) || (m == 11)
    then 30
    else 31

unfoldable pub days_before_year : ℕ → ℕ
days_before_year y = let p = y - 1 in p * 365 + p / 4 - p / 100 + p / 400

unfoldable pub days_in_year : ℕ → ℕ
unfolding is_leap
days_in_year y = if is_leap y then 366 else 365

-- The days of the months before the month `m`, counted from 1.
unfoldable pub days_before_month : ℕ → ℕ → ℕ
unfolding days_in_month
days_before_month y zero = 0
days_before_month y (suc zero) = 0
days_before_month y (suc (suc m)) = days_before_month y (suc m) + days_in_month y (suc m)

-- `datetime(year, month, day)`, as its day.
unfoldable pub day_number : ℕ → ℕ → ℕ → ℕ
unfolding days_before_year days_before_month
day_number y m d = days_before_year y + days_before_month y m + (d - 1)

-- The year of a day: cycles of 400, 100, 4 and 1 years, where the last day of a cycle of 400
-- or 4 years would begin one more year of it.
unfoldable pub year_of : ℕ → ℕ
year_of n =
    let r400 = n % 146097 in
    let n100 = r400 / 36524 in
    let r100 = r400 % 36524 in
    let r4 = r100 % 1461 in
    let n1 = r4 / 365 in
    let y = n / 146097 * 400 + n100 * 100 + r100 / 1461 * 4 + n1 in
    if (n1 == 4) || (n100 == 4) then y else y + 1

-- The month, of those from `m` on, in which the day `n` of the year falls.
unfoldable pub month_from : ℕ → ℕ → ℕ → ℕ → ℕ
unfolding days_in_month
month_from y zero m n = m
month_from y (suc left) m n =
    let later = month_from y left (m + 1) (n - days_in_month y m) in
    if ltb n (days_in_month y m) then m else later

unfoldable pub month_of : ℕ → ℕ
unfolding year_of month_from days_before_year
month_of n = let y = year_of n in month_from y 11 1 (n - days_before_year y)

-- `weekday()`: 0 is Monday.
unfoldable pub weekday : ℕ → ℕ
weekday n = n % 7
