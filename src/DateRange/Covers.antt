-- ===== src/DateRange/Covers.antt =====
-- The ranges of days and weeks.
use personal_deadline_manage.Common.{ℕ, ◌+◌, ◌-◌, ◌*◌, ◌%◌, ◌≤◌, ◌<◌, ◌≡◌, arith}
use personal_deadline_manage.Model.{Moment}
use personal_deadline_manage.Model.Time.{day, last_moment, date}
use personal_deadline_manage.Model.Calendar.{weekday}
use personal_deadline_manage.Store.{Result, ok, err, overflow_error}
use personal_deadline_manage.DateRange.{Range, plus_days, same_day_range, week_range, tomorrow_of}

-- The `n` days from the day `first` on: from its midnight to the last microsecond of the last.
abbrev pub Days : ℕ → ℕ → Range → Type 0
Days first n (start, end) = (start ≡ first * day) × (end + 1 ≡ (first + n) * day)

-- The Monday of the week of a moment.
abbrev pub monday_of : Moment → ℕ
monday_of t = date t - date t % 7

abbrev pub last_day : ℕ
last_day = 3652058

-- The `n` days from `first` on, if they are within the calendar.
abbrev pub DaysWithin : ℕ → ℕ → Result Range → Type 0
DaysWithin first n (ok r) = Days first n r × (first + n ≤ last_day + 1)
DaysWithin first n (err e) = (last_day + 1 < first + n) × (e ≡ overflow_error)

pub today_days :
    (ref : Moment) → ref ≤ last_moment → DaysWithin (date ref) 1 (ok (same_day_range ref))
unfolding same_day_range
today_days ref h = ground arith

pub tomorrow_days :
    (ref : Moment) → ref ≤ last_moment → DaysWithin (date ref + 1) 1 (tomorrow_of (plus_days ref 1))
unfolding plus_days same_day_range
tomorrow_days ref h = ground arith

pub week_days :
    (ref : Moment) (k : ℕ)
    → ref ≤ last_moment
    → DaysWithin (monday_of ref + k * 7) 7 (week_range ref k)
unfolding week_range plus_days weekday
week_days ref k h = ground arith
