-- ===== src/DateRange/Months.antt =====
-- The ranges of months, and every expression's range.
use personal_deadline_manage.Common.{
  ℕ, suc, ◌+◌, ◌-◌, ◌*◌, ◌/◌, ◌%◌, ◌≤◌, ◌<◌, ◌≡◌, refl, ◌∙◌, sym, ap, Option, none, some, ltb, ◌==◌,
  arith, ==_iff, Bool-cases, inl, inr,
}
use personal_deadline_manage.Model.{Moment}
use personal_deadline_manage.Model.Time.{last_moment, date}
use personal_deadline_manage.Model.Calendar.{
  days_before_year, days_in_month, day_number, year_of, month_of,
}
use personal_deadline_manage.Model.Calendar.Years.{days_before_year-suc, year_of_pos, year_of_start}
use personal_deadline_manage.Model.Calendar.Dates.{
  IsDate, month_of-InMonth, days_in_month_pos, days_before_year_mono, within_year,
  days_before_month-suc, all_months, of-day_number,
}
use personal_deadline_manage.Store.{Result, ok, err, value_error}
use personal_deadline_manage.DateRange.{
  DateRangeExpression, Range, month_in, month_range, explicit_bounds, resolve,
}
use personal_deadline_manage.DateRange.Covers.{
  Days, DaysWithin, monday_of, last_day, today_days, tomorrow_days, week_days,
}

-- The first day and the length of the month of a day.
abbrev pub first_of : ℕ → ℕ
first_of n = day_number (year_of n) (month_of n) 1

abbrev pub length_of : ℕ → ℕ
length_of n = days_in_month (year_of n) (month_of n)

-- The month after that of a day.
abbrev pub next_first : ℕ → ℕ
next_first n = first_of n + length_of n

pub month_holds : (n : ℕ) → (first_of n ≤ n) × (n < first_of n + length_of n)
unfolding day_number
month_holds n =
    let m = month_of-InMonth n in
    (omega (arith, year_of_start n, m.start), omega (arith, year_of_start n, m.end))

year_limit : (n : ℕ) → n ≤ last_day → year_of n ≤ 9999
unfolding days_before_year
year_limit n h = omega (arith, year_of_start n)

last_of :
    (y m : ℕ)
    → 1 ≤ days_in_month y m
    → day_number y m (days_in_month y m) + 1 ≡ day_number y m 1 + days_in_month y m
unfolding day_number
last_of y m h = omega arith

-- A whole month, or the error where the year has passed 9999.
abbrev pub IsMonth : ℕ → ℕ → Result Range → Type 0
IsMonth first length (ok r) = Days first length r × (first ≤ last_day)
IsMonth first length (err e) = (last_day < first) × (e ≡ value_error)

december : days_before_year 10000 ≡ last_day + 1
unfolding days_before_year
december = refl

late_start : (y m : ℕ) → IsDate y m 1 → 9999 < y → last_day < day_number y m 1
unfolding day_number
late_start y m v h = omega (arith, december, days_before_year_mono 10000 y h)

fine_start : (y m : ℕ) → IsDate y m 1 → y ≤ 9999 → day_number y m 1 ≤ last_day
unfolding day_number
fine_start y m v h = omega (
  arith,
  december,
  days_before_year_mono (suc y) 10000 (omega arith),
  days_before_year-suc y v.0,
  within_year y m 1 v,
  days_in_month_pos y m,
)

month_in-IsMonth :
    (y m : ℕ) → IsDate y m 1 → IsMonth (day_number y m 1) (days_in_month y m) (month_in y m)
month_in-IsMonth y m v = elim (Bool-cases (ltb 9999 y)) [
  | inl late ↦ rw late ((late_start y m v (ground arith), refl))
  | inr fine ↦ rw fine (
      (
        (refl, omega (arith, last_of y m (omega (arith, days_in_month_pos y m)))),
        fine_start y m v (ground arith),
      ))
]

module _ (y m : ℕ) (v : IsDate y m 1) where
  next_IsDate : IsDate (y + (m - 1 + 1) / 12) ((m - 1 + 1) % 12 + 1) 1
  next_IsDate = (
    omega (arith, v.0),
    omega arith,
    omega arith,
    omega arith,
    omega (arith, days_in_month_pos (y + (m - 1 + 1) / 12) ((m - 1 + 1) % 12 + 1)),
  )

  next_day_number :
      day_number (y + (m - 1 + 1) / 12) ((m - 1 + 1) % 12 + 1) 1
      ≡ day_number y m 1 + days_in_month y m
  unfolding day_number
  next_day_number = elim (Bool-cases (m == 12)) [
    | inl last ↦
        (let twelve : m ≡ 12 = (==_iff m 12).0 last in
          rw twelve
            (omega (arith, days_before_year-suc y v.0, all_months y, days_before_month-suc y 12)))
    | inr other ↦
        (let year : y + (m - 1 + 1) / 12 ≡ y = ground (arith, v) in
          let month : (m - 1 + 1) % 12 + 1 ≡ suc m = ground (arith, v) in
          rw (year, month) (omega (arith, days_before_month-suc y m v.1)))
  ]

day-IsDate : (n : ℕ) → IsDate (year_of n) (month_of n) 1
day-IsDate n =
    let m = month_of-InMonth n in
    (
      year_of_pos n,
      m.month_in.0,
      m.month_in.1,
      omega arith,
      omega (arith, days_in_month_pos (year_of n) (month_of n)),
    )

this-IsMonth :
    (ref : Moment) → IsMonth (first_of (date ref)) (length_of (date ref)) (month_range ref 0)
unfolding month_range
this-IsMonth ref =
    let n = date ref in
    let v = day-IsDate n in
    let year : year_of n + (month_of n - 1 + 0) / 12 ≡ year_of n = omega (arith, v.2) in
    let month : (month_of n - 1 + 0) % 12 + 1 ≡ month_of n = omega (arith, v.1, v.2) in
    rw (year, month) (month_in-IsMonth (year_of n) (month_of n) v)

-- The month of a day, known by its year and month.
IsMonth-at :
    (n y m : ℕ) (r : Result Range)
    → year_of n ≡ y
    → month_of n ≡ m
    → IsMonth (day_number y m 1) (days_in_month y m) r
    → IsMonth (first_of n) (length_of n) r
IsMonth-at n y m r year month h = rw (year, month) h

next-IsMonth :
    (ref : Moment)
    → let n = next_first (date ref) in IsMonth (first_of n) (length_of n) (month_range ref 1)
unfolding month_range
next-IsMonth ref =
    let n = date ref in
    let v = day-IsDate n in
    let w = next_IsDate (year_of n) (month_of n) v in
    let same = next_day_number (year_of n) (month_of n) v in
    let back = of-day_number _ _ 1 w in
    IsMonth-at (next_first n) _ _ (month_range ref 1) (ap year_of (sym same) ∙ back.0)
      (ap month_of (sym same) ∙ back.1) (month_in-IsMonth _ _ w)

-- What the range of an expression is to be.
abbrev pub Resolves :
    DateRangeExpression → Option Moment → Option Moment → Moment → Result Range → Type 0
Resolves DateRangeExpression.today start end ref r = DaysWithin (date ref) 1 r
Resolves DateRangeExpression.tomorrow start end ref r = DaysWithin (date ref + 1) 1 r
Resolves DateRangeExpression.this_week start end ref r = DaysWithin (monday_of ref) 7 r
Resolves DateRangeExpression.next_week start end ref r = DaysWithin (monday_of ref + 7) 7 r
Resolves DateRangeExpression.this_month start end ref r =
    IsMonth (first_of (date ref)) (length_of (date ref)) r
Resolves DateRangeExpression.next_month start end ref r =
    let n = next_first (date ref) in IsMonth (first_of n) (length_of n) r
Resolves DateRangeExpression.explicit_range (some start) (some end) ref (ok r) =
    (r ≡ (start, end)) × (start ≤ end)
Resolves DateRangeExpression.explicit_range (some start) (some end) ref (err e) =
    (end < start) × (e ≡ value_error)
Resolves DateRangeExpression.explicit_range start end ref r = r ≡ err value_error

explicit-Resolves :
    (start end : Option Moment) (ref : Moment)
    → Resolves DateRangeExpression.explicit_range start end ref (explicit_bounds start end)
unfolding explicit_bounds
explicit-Resolves none end ref = refl
explicit-Resolves (some start) none ref = refl
explicit-Resolves (some start) (some end) ref = elim (Bool-cases (ltb end start)) [
  | inl late ↦ rw late ((ground arith, refl))
  | inr fine ↦ rw fine ((refl, ground arith))
]

plus_none : (ref : Moment) → monday_of ref + 0 * 7 ≡ monday_of ref
plus_none ref = omega arith

-- For a reference time that is a datetime, the range of an expression goes from the first midnight
-- to the last microsecond of the day, the week from Monday or the month that the expression names,
-- within the calendar, or else that range would leave the calendar and `resolve` raises; an
-- explicit range is its two bounds if both are given and in order, and a ValueError otherwise.
pub resolve-Resolves :
    (e : DateRangeExpression) (start end : Option Moment) (ref : Moment)
    → ref ≤ last_moment
    → Resolves e start end ref (resolve e start end ref)
unfolding resolve
resolve-Resolves DateRangeExpression.today start end ref h = today_days ref h
resolve-Resolves DateRangeExpression.tomorrow start end ref h = tomorrow_days ref h
resolve-Resolves DateRangeExpression.this_week start end ref h =
    rw (← plus_none ref) (week_days ref 0 h)
resolve-Resolves DateRangeExpression.next_week start end ref h = week_days ref 1 h
resolve-Resolves DateRangeExpression.this_month start end ref h = this-IsMonth ref
resolve-Resolves DateRangeExpression.next_month start end ref h = next-IsMonth ref
resolve-Resolves DateRangeExpression.explicit_range start end ref h =
    explicit-Resolves start end ref
