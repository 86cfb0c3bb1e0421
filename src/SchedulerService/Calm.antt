-- ===== src/SchedulerService/Calm.antt =====
-- A tick that nothing disturbs, from what it finds due to what it leaves.
use personal_deadline_manage.Common.{
  ℕ, suc, ◌+◌, ◌≡◌, refl, ◌∙◌, Bool, true, false, none, some, List, [], ◌∷◌, ◌==◌, inl, inr, arith,
  length, All, if◌then◌else◌, Bool-cases, Option-cases, ==_iff,
}
use personal_deadline_manage.Model.{Uuid, Moment, Task, Reminder}
use personal_deadline_manage.Store.{Db, ok, Session, statement}
use personal_deadline_manage.Store.Rows.{row, All-row, HasKeys, count_where, update_where-HasKeys}
use personal_deadline_manage.Store.Claims.{count-claimable, row-claim, row-claim_ne}
use personal_deadline_manage.Store.WellFormed.{WellFormed, HasTask}
use personal_deadline_manage.Store.TaskRepository.{task_id}
use personal_deadline_manage.Store.ReminderRepository.{
  reminder_id, claimable, as_sent, claim, due_rows,
}
use personal_deadline_manage.SchedulerService.{
  TickResult, Tally, no_counts, notify, attempt, process, process_all, tick,
}
use personal_deadline_manage.SchedulerService.Due.{IsDueRow, Selects, due_rows-Selects}

-- No error and no other transaction: each statement sees what the last one left.
abbrev pub undisturbed : Db → Db → Session
undisturbed before db = record { committed = before; working = db; world = [] }

unfoldable pub claim_all : Moment → List Reminder → Db → Db
claim_all now [] db = db
claim_all now (r ∷ due) db = claim_all now due (claim r.id now db).1

abbrev pub Ready : Moment → Db → Reminder → Type 0
Ready now db r = IsDueRow now db.reminders r × HasTask db.tasks r

module _ (send : Reminder → Task → Bool) where
  -- Whether the provider raises on the reminder and its task.
  abbrev pub send_fails : List Task → Reminder → Bool
  send_fails tasks r = elim (row task_id r.task_id tasks) [
    | none ↦ false
    | some t ↦ if send r t then false else true
  ]

  abbrev pub failures : List Task → List Reminder → ℕ
  failures tasks [] = 0
  failures tasks (r ∷ due) = let n = failures tasks due in if send_fails tasks r then suc n else n

  abbrev counted : List Task → List Reminder → Tally → Tally
  counted tasks due c = record {
    sent = c.sent + length due;
    failed = c.failed + failures tasks due;
    skipped = c.skipped;
  }

  module _ (now : Moment) (before : Db) where
    attempt-undisturbed :
        (r : Reminder) (t : Task) (c : Tally) (db : Db)
        → HasKeys reminder_id db.reminders
        → IsDueRow now db.reminders r
        → attempt send now r (some t) c (undisturbed before db)
          ≡ (ok (notify send now r t 1 c), undisturbed before (claim r.id now db).1)
    unfolding attempt statement claim
    attempt-undisturbed r t c db keys d =
        let one : count_where (claimable r.id now) db.reminders ≡ 1 =
          count-claimable r.id now db.reminders keys ∙ ground (arith, d.0, d.1) in
        rw one refl

    process-undisturbed :
        (r : Reminder) (c : Tally) (db : Db)
        → HasKeys reminder_id db.reminders
        → Ready now db r
        → process send now r c (undisturbed before db)
          ≡ (ok (counted db.tasks (r ∷ []) c), undisturbed before (claim r.id now db).1)
    unfolding process statement notify
    process-undisturbed r c db keys ready = elim (Option-cases (row task_id r.task_id db.tasks)) [
      | inl gone ↦ absurd (ready.1 gone)
      | inr (t, here) ↦ rw here (attempt-undisturbed r t c db keys ready.0 ∙ ground arith)
    ]

tasks-claim : (k : Uuid) (now : Moment) (db : Db) → (claim k now db).1.tasks ≡ db.tasks
unfolding claim
tasks-claim k now db = refl

keys-claim :
    (k : Uuid) (now : Moment) (db : Db)
    → HasKeys reminder_id db.reminders
    → HasKeys reminder_id (claim k now db).1.reminders
unfolding claim
keys-claim k now db h =
    update_where-HasKeys reminder_id (claimable k now) (as_sent now) (λ r. refl) db.reminders h

Ready-claim :
    (k : Uuid) (now : Moment) (db : Db) (r : Reminder)
    → row reminder_id k (r ∷ []) ≡ none
    → Ready now db r
    → Ready now (claim k now db).1 r
Ready-claim k now db r other ready = (
  (row-claim k r.id now db ∙ ground (arith, ready.0.0), ready.0.1),
  rw (tasks-claim k now db) ready.1,
)

Ready-All-claim :
    (k : Uuid) (now : Moment) (db : Db) (due : List Reminder)
    → row reminder_id k due ≡ none
    → All (Ready now db) due
    → All (Ready now (claim k now db).1) due
Ready-All-claim k now db [] other h = tt
Ready-All-claim k now db (r ∷ due) other h =
    (Ready-claim k now db r (ground arith) h.0, Ready-All-claim k now db due (ground arith) h.1)

-- Each row of the list, and no other, has become SENT.
abbrev pub ClaimedRows : Moment → List Reminder → Db → Db → Type 0
ClaimedRows now due db db' =
    (k : Uuid)
    → row reminder_id k db'.reminders ≡ elim (row reminder_id k due) [
      | some r ↦ some (as_sent now r)
      | none ↦ row reminder_id k db.reminders
    ]

pub claim_all-ClaimedRows :
    (now : Moment) (due : List Reminder) (db : Db)
    → HasKeys reminder_id due
    → All (Ready now db) due
    → ClaimedRows now due db (claim_all now due db)
unfolding claim_all
claim_all-ClaimedRows now [] db keys h k = refl
claim_all-ClaimedRows now (r ∷ due) db keys h k =
    claim_all-ClaimedRows now due (claim r.id now db).1 keys.1
      (Ready-All-claim r.id now db due keys.0 h.1) k
    ∙ elim (Bool-cases (r.id == k)) [
      | inl same ↦
          (let here : r.id ≡ k = (==_iff r.id k).0 same in
            ground (arith, here, row-claim r.id r.id now db, keys.0, h.0.0.0, h.0.0.1))
      | inr other ↦ ground (arith, row-claim_ne r.id k now db)
    ]

process_all-undisturbed :
    (send : Reminder → Task → Bool) (now : Moment) (before : Db) (due : List Reminder) (c : Tally)
    (db : Db)
    → HasKeys reminder_id db.reminders
    → HasKeys reminder_id due
    → All (Ready now db) due
    → process_all send now due c (undisturbed before db)
      ≡ (ok (counted send db.tasks due c), undisturbed before (claim_all now due db))
unfolding process_all claim_all
process_all-undisturbed send now before [] c db rows keys h = ground arith
process_all-undisturbed send now before (r ∷ due) c db rows keys h =
    rw (process-undisturbed send now before r c db rows h.0) (
      process_all-undisturbed send now before due (counted send db.tasks (r ∷ []) c)
        (claim r.id now db).1 (keys-claim r.id now db rows) keys.1
        (Ready-All-claim r.id now db due keys.0 h.1)
      ∙ rw (tasks-claim r.id now db) (ground arith))

abbrev pub due_now : Moment → ℕ → Db → List Reminder
due_now now limit db = due_rows limit now db.reminders

-- The counts of a tick that sends all that is due.
abbrev pub announced : (Reminder → Task → Bool) → Moment → ℕ → Db → TickResult
announced send now limit db = record {
  sent_count = length (due_now now limit db);
  failed_count = failures send db.tasks (due_now now limit db);
  skipped_count = 0;
  due_count = length (due_now now limit db);
}

stored-Ready :
    (now : Moment) (db : Db) (due : List Reminder)
    → WellFormed db
    → All (IsDueRow now db.reminders) due
    → All (Ready now db) due
stored-Ready now db [] w h = tt
stored-Ready now db (r ∷ due) w h = (
  (h.0, All-row reminder_id (HasTask db.tasks) r.id db.reminders r w.parents h.0.0),
  stored-Ready now db due w h.1,
)

module _ (now : Moment) (limit : ℕ) (db : Db) (w : WellFormed db) where
  pub due_now-Selects : Selects limit now db.reminders (due_now now limit db)
  due_now-Selects = due_rows-Selects limit now db.reminders w.reminder_keys

  pub due_now-Ready : All (Ready now db) (due_now now limit db)
  due_now-Ready = stored-Ready now db (due_now now limit db) w due_now-Selects.stored

  pub tick-undisturbed :
      (send : Reminder → Task → Bool) (before : Db)
      → tick send now limit (undisturbed before db) ≡ (
        ok (announced send now limit db),
        undisturbed before (claim_all now (due_now now limit db) db),
      )
  unfolding tick statement
  tick-undisturbed send before =
      rw
        (process_all-undisturbed send now before (due_now now limit db) no_counts db w.reminder_keys
          due_now-Selects.distinct due_now-Ready)
        (ground arith)

  -- An undisturbed tick counts and claims all that it found due, and touches no other reminder.
  pub tick_announces :
      (send : Reminder → Task → Bool) (before : Db)
      → let (r, s) = tick send now limit (undisturbed before db) in
        (r ≡ ok (announced send now limit db)) × ClaimedRows now (due_now now limit db) db s.working
  tick_announces send before = rw (tick-undisturbed send before) (
      (
        refl,
        claim_all-ClaimedRows now (due_now now limit db) db due_now-Selects.distinct due_now-Ready,
      ))
