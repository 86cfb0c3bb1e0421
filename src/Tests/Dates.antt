-- ===== src/Tests/Dates.antt =====
-- Dates and ranges of dates.
use personal_deadline_manage.Common.{◌≡◌, refl, none, some, arith}
use personal_deadline_manage.Model.Calendar.{year_of, month_of, day_number, days_in_month}
use personal_deadline_manage.Model.Calendar.Dates.{day_of, of-day_number}
use personal_deadline_manage.Store.{ok}
use personal_deadline_manage.DateRange.{DateRangeExpression, resolve}
use personal_deadline_manage.DateRange.Months.{Resolves, resolve-Resolves}

-- 2024-02-29.
of-day_number_example :
    (year_of (day_number 2024 2 29) ≡ 2024)
    × (month_of (day_number 2024 2 29) ≡ 2)
    × (day_of (day_number 2024 2 29) ≡ 29)
of-day_number_example =
    of-day_number 2024 2 29
      (omega arith, omega arith, omega arith, omega arith, unfold days_in_month in omega arith)

resolve-Resolves_example :
    Resolves DateRangeExpression.explicit_range
      (some 5)
      (some 9)
      7
      (resolve DateRangeExpression.explicit_range (some 5) (some 9) 7)
resolve-Resolves_example =
    resolve-Resolves DateRangeExpression.explicit_range (some 5) (some 9) 7 (omega arith)

this_week_example :
    resolve DateRangeExpression.this_week none none 864000000000 ≡ ok (604800000000, 1209599999999)
unfolding resolve
this_week_example = refl
