-- ===== src/SchedulerService/Counts.antt =====
-- The counts of a tick, whatever the other transactions do meanwhile.
use personal_deadline_manage.Common.{
  ℕ, suc, ◌+◌, ◌≤◌, ◌≡◌, Bool, Option, none, some, List, [], ◌∷◌, arith, length, length-take-le,
}
use personal_deadline_manage.Model.{Moment, Task, Reminder}
use personal_deadline_manage.Store.{ok, Session, pure, ◌>>=◌}
use personal_deadline_manage.Store.Returns.{
  Returns, Returns-bind, Returns-anything, Returns-ok, Returns-mono, Returns-select,
}
use personal_deadline_manage.Store.TaskRepository
use personal_deadline_manage.Store.ReminderRepository
use personal_deadline_manage.Store.ReminderRepository.{due_rows}
use personal_deadline_manage.SchedulerService.{
  TickResult, Tally, no_counts, notify, attempt, process, process_all, tick,
}

-- `n` more reminders have been dealt with since the counts were `c`.
pub record Adds (n : ℕ) (c c' : Tally) : Type 0 where
  pub settled : c'.sent + c'.skipped ≤ c.sent + c.skipped + n
  pub covered : n + c.sent + c.skipped + c.failed ≤ c'.sent + c'.skipped + c'.failed
  pub failures : c'.failed ≤ c.failed + n
  pub grown : c.failed ≤ c'.failed

module _ (send : Reminder → Task → Bool) (now : Moment) where
  notify-Adds :
      (r : Reminder) (t : Task) (rowcount : ℕ) (c : Tally)
      → Adds 1 c (notify send now r t rowcount c)
  unfolding notify
  notify-Adds r t rowcount c = ground arith

  attempt-Adds :
      (r : Reminder) (task : Option Task) (c : Tally) (s : Session)
      → Returns (Adds 1 c) (attempt send now r task c s)
  unfolding attempt
  attempt-Adds r none c s = ground arith
  attempt-Adds r (some t) c s =
      Returns-bind (λ (n : ℕ). Unit) (Adds 1 c) (ReminderRepository.mark_sent r.id now)
        (λ rowcount. pure (notify send now r t rowcount c)) s
        (Returns-anything (ReminderRepository.mark_sent r.id now s))
        (λ rowcount s' q. notify-Adds r t rowcount c)

  process-Adds :
      (r : Reminder) (c : Tally) (s : Session) → Returns (Adds 1 c) (process send now r c s)
  unfolding process
  process-Adds r c s =
      Returns-bind (λ (t : Option Task). Unit) (Adds 1 c) (TaskRepository.get_by_id r.task_id)
        (λ task. attempt send now r task c) s
        (Returns-anything (TaskRepository.get_by_id r.task_id s))
        (λ task s' q. attempt-Adds r task c s')

  Adds-suc : (n : ℕ) (c c' : Tally) → Adds 1 c c' → (d : Tally) → Adds n c' d → Adds (suc n) c d
  Adds-suc n c c' a d b = omega arith

  process_all-Adds :
      (due : List Reminder) (c : Tally) (s : Session)
      → Returns (Adds (length due) c) (process_all send now due c s)
  unfolding process_all
  process_all-Adds [] c s = omega arith
  process_all-Adds (r ∷ due) c s =
      Returns-bind (Adds 1 c) (Adds (suc (length due)) c) (process send now r c)
        (λ c'. process_all send now due c') s (process-Adds r c s)
        (λ c' s' a.
          Returns-mono (Adds (length due) c') (Adds (suc (length due)) c)
            (process_all send now due c' s') (Adds-suc (length due) c c' a)
            (process_all-Adds due c' s'))

abbrev result : List Reminder → Tally → TickResult
result due c = record {
  sent_count = c.sent;
  failed_count = c.failed;
  skipped_count = c.skipped;
  due_count = length due;
}

-- At most `limit` reminders are due; each of them was sent, skipped or failed, and no more.
pub record Accounts (limit : ℕ) (r : TickResult) : Type 0 where
  pub limited : r.due_count ≤ limit
  pub settled : r.sent_count + r.skipped_count ≤ r.due_count
  pub covered : r.due_count ≤ r.sent_count + r.skipped_count + r.failed_count
  pub failures : r.failed_count ≤ r.due_count

module _ (send : Reminder → Task → Bool) (now : Moment) (limit : ℕ) where
  tick-Returns : (s : Session) → Returns (Accounts limit) (tick send now limit s)
  unfolding tick due_rows
  tick-Returns s =
      Returns-bind (λ (due : List Reminder). length due ≤ limit) (Accounts limit)
        (ReminderRepository.find_due limit now)
        (λ due. process_all send now due no_counts >>= λ c. pure (result due c)) s
        (Returns-select (λ (due : List Reminder). length due ≤ limit)
          (λ db. due_rows limit now db.reminders) (λ db. length-take-le limit _) s)
        (λ due s' few.
          Returns-bind (Adds (length due) no_counts) (Accounts limit)
            (process_all send now due no_counts) (λ c. pure (result due c)) s'
            (process_all-Adds send now due no_counts s') (λ c s'' a. omega arith))

  -- A tick that returns, whatever other transactions do meanwhile, found at most `limit` reminders
  -- due; sent and skipped together are at most these, failed are at most these, and each is sent,
  -- skipped or failed.
  pub tick-Accounts :
      (s : Session) (r : TickResult) → (tick send now limit s).0 ≡ ok r → Accounts limit r
  tick-Accounts s r e = Returns-ok (Accounts limit) (tick send now limit s) r e (tick-Returns s)
