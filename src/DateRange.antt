-- ===== src/DateRange.antt =====
-- services/date_range_resolver.py. `ref` is the reference time, in UTC.
pub mod Covers
pub mod Months
use personal_deadline_manage.Common.{
  ℕ, ◌+◌, ◌-◌, ◌*◌, ◌/◌, ◌%◌, Bool, Option, none, some, ltb, leb, if◌then◌else◌,
}
use personal_deadline_manage.Model.{Moment}
use personal_deadline_manage.Model.Time.{day, last_moment, date}
use personal_deadline_manage.Model.Calendar.{year_of, month_of, day_number, days_in_month, weekday}
use personal_deadline_manage.Store.{Result, ok, err, value_error, overflow_error}

pub data DateRangeExpression : Type 0 where
  today tomorrow this_week next_week this_month next_month explicit_range : DateRangeExpression

abbrev pub Range : Type 0
Range = Moment × Moment

abbrev pub day_start : Moment → Moment
day_start t = date t * day

abbrev pub day_end : Moment → Moment
day_end t = date t * day + (day - 1)

unfoldable pub same_day_range : Moment → Range
same_day_range t = (day_start t, day_end t)

-- `t + timedelta(days=n)`; `none` is OverflowError.
unfoldable pub plus_days : Moment → ℕ → Option Moment
plus_days t n = if leb (t + n * day) last_moment then some (t + n * day) else none

abbrev pub week_from : Moment → Option Moment → Result Range
week_from monday none = err overflow_error
week_from monday (some sunday) = ok (day_start monday, day_end sunday)

abbrev pub week_of : Option Moment → Result Range
week_of none = err overflow_error
week_of (some monday) = week_from monday (plus_days monday 6)

-- The days back to Monday never leave the calendar, whose first day is one.
unfoldable pub week_range : Moment → ℕ → Result Range
unfolding plus_days weekday
week_range ref weeks_offset =
    week_of (plus_days (ref - weekday (date ref) * day) (weeks_offset * 7))

-- The first moment of the day `n`.
abbrev pub midnight : ℕ → Moment
midnight n = n * day

-- `datetime(year, …)` refuses a year after 9999.
abbrev pub month_in : ℕ → ℕ → Result Range
month_in y m =
    if ltb 9999 y
    then err value_error
    else ok (midnight (day_number y m 1), midnight (day_number y m (days_in_month y m)) + (day - 1))

unfoldable pub month_range : Moment → ℕ → Result Range
unfolding year_of month_of day_number days_in_month
month_range ref months_offset =
    let total_months = month_of (date ref) - 1 + months_offset in
    month_in (year_of (date ref) + total_months / 12) (total_months % 12 + 1)

-- The two bounds are in UTC, as the caller has parsed them.
unfoldable pub explicit_bounds : Option Moment → Option Moment → Result Range
explicit_bounds none end = err value_error
explicit_bounds (some start) none = err value_error
explicit_bounds (some start) (some end) = if ltb end start then err value_error else ok (start, end)

abbrev pub tomorrow_of : Option Moment → Result Range
tomorrow_of none = err overflow_error
tomorrow_of (some t) = ok (same_day_range t)

unfoldable pub resolve : DateRangeExpression → Option Moment → Option Moment → Moment → Result Range
unfolding same_day_range plus_days week_range month_range explicit_bounds
resolve DateRangeExpression.today start end ref = ok (same_day_range ref)
resolve DateRangeExpression.tomorrow start end ref = tomorrow_of (plus_days ref 1)
resolve DateRangeExpression.this_week start end ref = week_range ref 0
resolve DateRangeExpression.next_week start end ref = week_range ref 1
resolve DateRangeExpression.this_month start end ref = month_range ref 0
resolve DateRangeExpression.next_month start end ref = month_range ref 1
resolve DateRangeExpression.explicit_range start end ref = explicit_bounds start end
