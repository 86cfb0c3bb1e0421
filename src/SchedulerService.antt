-- ===== src/SchedulerService.antt =====
-- services/scheduler_service.py. `send` says of each call of the notification provider whether it
-- returns (`true`) or raises; log lines are left out.
pub mod Counts
pub mod Due
pub mod Calm
use personal_deadline_manage.Common.{
  ℕ, ◌+◌, Bool, Option, none, some, List, [], ◌∷◌, ◌==◌, if◌then◌else◌, length,
}
use personal_deadline_manage.Model.{Moment, Task, Reminder}
use personal_deadline_manage.Store.{Action, pure, ◌>>=◌}
use personal_deadline_manage.Store.TaskRepository
use personal_deadline_manage.Store.ReminderRepository

pub record TickResult : Type 0 where
  pub sent_count : ℕ
  pub failed_count : ℕ
  pub skipped_count : ℕ
  pub due_count : ℕ

-- The counters of the loop.
pub record Tally : Type 0 where
  pub sent : ℕ
  pub failed : ℕ
  pub skipped : ℕ

abbrev pub no_counts : Tally
no_counts = record { sent = 0; failed = 0; skipped = 0 }

module _ (send : Reminder → Task → Bool) (now : Moment) where
  -- After `mark_sent`: the race was lost, or the provider is called once.
  unfoldable pub notify : Reminder → Task → ℕ → Tally → Tally
  notify reminder task rowcount c =
      if rowcount == 0
      then record c { skipped = c.skipped + 1 }
      else if send reminder task
      then record c { sent = c.sent + 1 }
      else record c { sent = c.sent + 1; failed = c.failed + 1 }

  -- A reminder whose task is gone is not claimed.
  unfoldable pub attempt : Reminder → Option Task → Tally → Action Tally
  unfolding notify ReminderRepository.mark_sent
  attempt reminder none c = pure (record c { failed = c.failed + 1 })
  attempt reminder (some task) c = do
    rowcount ← ReminderRepository.mark_sent reminder.id now
    pure (notify reminder task rowcount c)

  -- The loop's body.
  unfoldable pub process : Reminder → Tally → Action Tally
  unfolding attempt TaskRepository.get_by_id
  process reminder c = do task ← TaskRepository.get_by_id reminder.task_id; attempt reminder task c

  unfoldable pub process_all : List Reminder → Tally → Action Tally
  process_all [] c = pure c
  process_all (reminder ∷ due) c = do c' ← process reminder c; process_all due c'

  unfoldable pub tick : ℕ → Action TickResult
  unfolding ReminderRepository.find_due
  tick limit = do
    due ← ReminderRepository.find_due limit now
    c ← process_all due no_counts
    pure (record {
      sent_count = c.sent;
      failed_count = c.failed;
      skipped_count = c.skipped;
      due_count = length due;
    })
