-- ===== src/Model/Calendar/Dates.antt =====
-- Months within their year, and dates as days.
use personal_deadline_manage.Common.{ℕ, zero, suc, ◌+◌, ◌-◌, ◌≤◌, ◌<◌, ◌≡◌, refl, arith}
use personal_deadline_manage.Model.Calendar.{
  days_before_year, days_in_year, year_of, days_in_month, days_before_month, day_number, month_from,
  month_of,
}
use personal_deadline_manage.Model.Calendar.Years.{
  days_before_year-suc, year_of_pos, year_of_start, year_of_end,
}

pub days_before_month-suc :
    (y m : ℕ) → 1 ≤ m → days_before_month y (suc m) ≡ days_before_month y m + days_in_month y m
unfolding days_before_month
days_before_month-suc y zero h = absurd (omega arith)
days_before_month-suc y (suc m) h = refl

-- The twelve months make up the year.
pub all_months : (y : ℕ) → days_before_month y 13 ≡ days_in_year y
unfolding days_before_month days_in_month days_in_year
all_months y = ground arith

pub days_in_month_pos : (y m : ℕ) → 28 ≤ days_in_month y m
unfolding days_in_month
days_in_month_pos y m = ground arith

-- Day `n` of the year `y`, counted from 0, falls in the month `m`.
pub record InMonth (y n m : ℕ) : Type 0 where
  pub month_in : (1 ≤ m) × (m ≤ 12)
  pub start : days_before_month y m ≤ n
  pub end : n < days_before_month y m + days_in_month y m

month_from-InMonth :
    (y left m n : ℕ)
    → m + left ≡ 12
    → 1 ≤ m
    → days_before_month y m + n < days_in_year y
    → InMonth y (days_before_month y m + n) (month_from y left m n)
unfolding month_from
month_from-InMonth y zero m n hm pos fits = ground (arith, all_months y, days_before_month-suc y m)
month_from-InMonth y (suc left) m n hm pos fits = ground (
  arith,
  days_before_month-suc y m pos,
  month_from-InMonth y left (m + 1) (n - days_in_month y m),
)

-- The month of a day is the one within whose days it falls.
pub month_of-InMonth : (n : ℕ) → InMonth (year_of n) (n - days_before_year (year_of n)) (month_of n)
unfolding month_of days_before_month
month_of-InMonth n = ground (
  arith,
  year_of_pos n,
  year_of_start n,
  year_of_end n,
  days_before_year-suc (year_of n),
  month_from-InMonth (year_of n) 11 1 (n - days_before_year (year_of n)),
)

-- The day of the month, counted from 1.
unfoldable pub day_of : ℕ → ℕ
unfolding year_of month_of
day_of n = n - days_before_year (year_of n) - days_before_month (year_of n) (month_of n) + 1

pub day_number-of : (n : ℕ) → day_number (year_of n) (month_of n) (day_of n) ≡ n
unfolding day_number day_of
day_number-of n = let m = month_of-InMonth n in omega (arith, year_of_start n, m.start)

pub days_before_year_mono : (a b : ℕ) → a ≤ b → days_before_year a ≤ days_before_year b
unfolding days_before_year
days_before_year_mono a b h = omega arith

pub year_of_unique :
    (n y : ℕ) → days_before_year y ≤ n → n < days_before_year (y + 1) → year_of n ≡ y
year_of_unique n y lo hi = grind (
  arith,
  year_of_start n,
  year_of_end n,
  days_before_year_mono (year_of n + 1) y,
  days_before_year_mono (y + 1) (year_of n),
)

-- A later month starts no earlier.
days_before_month_mono : (y a b : ℕ) → a ≤ b → days_before_month y a ≤ days_before_month y b
unfolding days_before_month
days_before_month_mono y a zero h = ground arith
days_before_month_mono y zero (suc zero) h = omega arith
days_before_month_mono y (suc zero) (suc zero) h = omega arith
days_before_month_mono y (suc (suc a)) (suc zero) h = absurd (omega arith)
days_before_month_mono y a (suc (suc b)) h = ground (arith, days_before_month_mono y a (suc b))

InMonth-unique : (y n a b : ℕ) → InMonth y n a → InMonth y n b → a ≡ b
InMonth-unique y n a b p q = grind (
  arith,
  p.month_in,
  q.month_in,
  p.start,
  p.end,
  q.start,
  q.end,
  days_before_month-suc y a,
  days_before_month-suc y b,
  days_before_month_mono y (a + 1) b,
  days_before_month_mono y (b + 1) a,
)

abbrev pub IsDate : ℕ → ℕ → ℕ → Type 0
IsDate y m d = (1 ≤ y) × (1 ≤ m) × (m ≤ 12) × (1 ≤ d) × (d ≤ days_in_month y m)

module _ (y m d : ℕ) (v : IsDate y m d) where
  pub within_year : days_before_month y m + days_in_month y m ≤ days_in_year y
  within_year = omega (
    arith,
    all_months y,
    days_before_month-suc y m v.1,
    days_before_month_mono y (suc m) 13 (omega (arith, v.2)),
  )

  day_number-year : day_number y m d ≡ days_before_year y + (days_before_month y m + (d - 1))
  unfolding day_number
  day_number-year = omega arith

  year_of-day_number : year_of (day_number y m d) ≡ y
  unfolding days_before_year
  year_of-day_number =
      year_of_unique (day_number y m d) y (omega (arith, day_number-year))
        (omega (arith, v.3, v.4, day_number-year, within_year, days_before_year-suc y v.0))

  month_of-day_number : month_of (day_number y m d) ≡ m
  month_of-day_number =
      let n = day_number y m d in
      let falls = month_of-InMonth n in
      let rest : n - days_before_year (year_of n) ≡ days_before_month y m + (d - 1) =
        rw year_of-day_number (omega (arith, day_number-year)) in
      InMonth-unique y (days_before_month y m + (d - 1)) (month_of n) m
        (rw (rest, year_of-day_number) at falls)
        (record { month_in = (v.1, v.2); start = omega arith; end = omega (arith, v) })

  -- S
  pub of-day_number :
      (year_of (day_number y m d) ≡ y)
      × (month_of (day_number y m d) ≡ m)
      × (day_of (day_number y m d) ≡ d)
  unfolding day_of
  of-day_number = (
    year_of-day_number,
    month_of-day_number,
    rw (month_of-day_number, year_of-day_number) (omega (arith, v, day_number-year)),
  )
