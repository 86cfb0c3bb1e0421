-- ===== src/Model/Calendar/Years.antt =====
-- The year of a day is the one within whose days it falls.
use personal_deadline_manage.Common.{ℕ, suc, ◌+◌, ◌≤◌, ◌<◌, ◌≡◌, arith}
use personal_deadline_manage.Model.Calendar.{is_leap, days_before_year, days_in_year, year_of}

pub days_before_year-suc :
    (y : ℕ) → 1 ≤ y → days_before_year (suc y) ≡ days_before_year y + days_in_year y
unfolding days_before_year days_in_year is_leap
days_before_year-suc y h = ground arith

pub year_of_pos : (n : ℕ) → 1 ≤ year_of n
unfolding year_of
year_of_pos n = ground arith

pub year_of_start : (n : ℕ) → days_before_year (year_of n) ≤ n
unfolding year_of days_before_year
year_of_start n = ground arith

pub year_of_end : (n : ℕ) → n < days_before_year (year_of n + 1)
unfolding year_of days_before_year
year_of_end n = ground arith
