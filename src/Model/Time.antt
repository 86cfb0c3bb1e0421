-- ===== src/Model/Time.antt =====
-- Python's datetime arithmetic on UTC-aware datetimes, as the services use it.
use personal_deadline_manage.Common.{
  ℕ, suc, ◌+◌, ◌-◌, ◌*◌, ◌/◌, Option, none, some, leb, if◌then◌else◌,
}
use personal_deadline_manage.Common.Int.{ℤ, pos, negsuc, sub_ℕ}

abbrev pub minute : ℕ
minute = 60000000

abbrev pub day : ℕ
day = 86400000000

-- `datetime.max`, the last microsecond of the year 9999: 3,652,059 days after the first.
abbrev pub last_moment : ℕ
last_moment = 315537897599999999

-- `t - timedelta(minutes=m)`; `none` is OverflowError, a date before the year 1 or after 9999.
unfoldable pub minus_minutes : ℕ → ℤ → Option ℕ
minus_minutes t (pos m) = if leb (m * minute) t then some (t - m * minute) else none
minus_minutes t (negsuc m) =
    if leb (t + suc m * minute) last_moment then some (t + suc m * minute) else none

-- `t.date()`, as the number of days since 0001-01-01.
abbrev pub date : ℕ → ℕ
date t = t / day

-- `int((end - start).total_seconds() / 60)`: the quotient is cut towards zero.
unfoldable pub minutes_between : ℕ → ℕ → ℤ
minutes_between start end =
    if leb start end then pos ((end - start) / minute) else sub_ℕ 0 ((start - end) / minute)

abbrev pub second : ℕ
second = 1000000

-- `t + timedelta(seconds=n)`; `none` is OverflowError.
unfoldable pub plus_seconds : ℕ → ℤ → Option ℕ
plus_seconds t (pos n) = if leb (t + n * second) last_moment then some (t + n * second) else none
plus_seconds t (negsuc n) = if leb (suc n * second) t then some (t - suc n * second) else none
