-- ===== src/Tests/Scheduling.antt =====
-- The worker on concrete tables.
use personal_deadline_manage.Common.{◌≡◌, ◌≤◌, refl, none, List, [], ◌∷◌, All}
use personal_deadline_manage.Common.Sort.{sort_by}
use personal_deadline_manage.Store.{ok, Event, calm, fault, meanwhile, open_session, statement}
use personal_deadline_manage.Store.Rows.{row}
use personal_deadline_manage.Store.Claims.{wins, wins_once}
use personal_deadline_manage.Store.ReminderRepository.{reminder_id, due_rows, claim}
use personal_deadline_manage.SchedulerService
use personal_deadline_manage.SchedulerService.{TickResult, tick, process, process_all}
use personal_deadline_manage.SchedulerService.Calm.{ClaimedRows, due_now, announced}
use personal_deadline_manage.SchedulerService.Counts.{Accounts, tick-Accounts}
use personal_deadline_manage.SchedulerService.Due.{Selects, due_rows-Selects}
use personal_deadline_manage.SchedulerModule
use personal_deadline_manage.SchedulerModule.{run_once}
use personal_deadline_manage.SchedulerModule.Once.{
  Concludes, tick-Concludes, run_once_announces, run_once_settles,
}
use personal_deadline_manage.Tests.Data.{tables, tables-WellFormed, send_first, early}

run_once_announces_example :
    let (r, db') = run_once send_first 1600 5 tables [] in
    (r ≡ ok (announced send_first 1600 5 tables))
    × ClaimedRows 1600 (due_now 1600 5 tables) tables db'
run_once_announces_example = run_once_announces send_first 1600 5 tables tables-WellFormed

run_once_settles_example :
    let db' = (run_once send_first 1600 5 tables []).1 in
    All (λ r. row reminder_id r.id (due_now 1600 5 tables) ≡ none) (due_now 1700 5 db')
run_once_settles_example = run_once_settles send_first 1600 5 tables tables-WellFormed 1700 5

wins_once_example : wins 11 ((11, 600) ∷ (12, 600) ∷ (11, 700) ∷ []) tables ≤ 1
wins_once_example =
    wins_once 11 ((11, 600) ∷ (12, 600) ∷ (11, 700) ∷ []) tables tables-WellFormed.reminder_keys

-- Another worker claims the first reminder after the tick has begun.
abbrev other_worker : List Event
other_worker = calm ∷ meanwhile (λ db. (claim 11 550 db).1) ∷ calm ∷ []

abbrev fails_late : List Event
fails_late = calm ∷ calm ∷ calm ∷ fault ∷ []

tick-Concludes_example :
    Concludes tables
      (SchedulerService.tick send_first 600 5 (open_session tables fails_late))
      (SchedulerModule.tick send_first 600 5 (open_session tables fails_late))
tick-Concludes_example =
    tick-Concludes send_first 600 5 (open_session tables fails_late) (tt, (tt, (tt, (tt, tt))))

-- The race for the one due reminder is lost.
abbrev lost_race : TickResult
lost_race = record { sent_count = 0; failed_count = 0; skipped_count = 1; due_count = 1 }

tick_loses : (tick send_first 600 5 (open_session tables other_worker)).0 ≡ ok lost_race
unfolding tick claim statement process_all process sort_by
tick_loses = refl

tick-Accounts_example : Accounts 5 lost_race
tick-Accounts_example =
    tick-Accounts send_first 600 5 (open_session tables other_worker) lost_race tick_loses

due_rows-Selects_example : Selects 1 1600 tables.reminders (due_rows 1 1600 tables.reminders)
due_rows-Selects_example = due_rows-Selects 1 1600 tables.reminders tables-WellFormed.reminder_keys

due_rows_first : due_rows 1 1600 tables.reminders ≡ early ∷ []
unfolding due_rows sort_by
due_rows_first = refl
