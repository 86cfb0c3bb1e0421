-- ===== src/Config.antt =====
-- config.py: the numbers that the program is configured with, and their check.
use personal_deadline_manage.Common.{not, ◌&&◌, if◌then◌else◌}
use personal_deadline_manage.Common.Int.{ℤ, pos, ltb_ℤ, leb_ℤ}
use personal_deadline_manage.Store.{Result, ok, err, value_error}

pub record Limits : Type 0 where
  pub scheduler_tick_seconds : ℤ
  pub scheduler_batch_size : ℤ
  pub daily_working_minutes : ℤ

-- `Settings.__post_init__`
unfoldable pub post_init : Limits → Result Limits
post_init s =
    if ltb_ℤ s.scheduler_tick_seconds (pos 5)
    then err value_error
    else if not (leb_ℤ (pos 1) s.scheduler_batch_size && leb_ℤ s.scheduler_batch_size (pos 1000))
    then err value_error
    else if not (ltb_ℤ (pos 0) s.daily_working_minutes && leb_ℤ s.daily_working_minutes (pos 1440))
    then err value_error
    else ok s
