-- ===== src/SchedulerModule.antt =====
-- modules/scheduler_module.py, and `run_once` of scheduler.py.
pub mod Once
use personal_deadline_manage.Common.{ℕ, Bool, List, ltb, if◌then◌else◌}
use personal_deadline_manage.Model.{Moment, Task, Reminder}
use personal_deadline_manage.Store.{
  Db, Result, ok, err, Event, Session, Action, pure, commit, rollback, or_rollback, open_session,
  ◌>>=◌,
}
use personal_deadline_manage.SchedulerService
use personal_deadline_manage.SchedulerService.{TickResult}

-- Commit if anything was due; a failure to commit is rolled back and raised.
unfoldable pub conclude : Result TickResult → Action TickResult
unfolding commit rollback
conclude (err e) s = (err e, rollback s)
conclude (ok result) s =
    let committed = or_rollback ((commit >>= λ _. pure result) s) in
    if ltb 0 result.due_count then committed else (ok result, s)

module _ (send : Reminder → Task → Bool) (now : Moment) (limit : ℕ) where
  unfoldable pub tick : Action TickResult
  unfolding conclude
  tick s = let (r, s') = SchedulerService.tick send now limit s in conclude r s'

  -- A fresh session for the tick; closing it drops what is not committed.
  unfoldable pub run_once : Db → List Event → Result TickResult × Db
  unfolding tick
  run_once db world = let (r, s) = tick (open_session db world) in (r, s.committed)
