-- ===== src/Store/WellFormed.antt =====
-- The primary and foreign keys of the tables, under every statement.
use personal_deadline_manage.Common.{
  ◌≡◌, refl, ◌≢◌, inl, inr, Bool, not, Option, none, List, [], ◌∷◌, ◌++◌, ◌==◌, arith, All,
  All-mono, All-filter, All-append, Option-cases, Bool-cases,
}
use personal_deadline_manage.Model.{Uuid, Moment, Task, Reminder, PendingConfirmation}
use personal_deadline_manage.Store.Transaction.{Db}
use personal_deadline_manage.Store.Rows.{
  row, put, without, HasKeys, row-append, row-put_keeps, row-without_ne, append-HasKeys,
  put-HasKeys, without-HasKeys, filter-HasKeys, All-put, All-without, update_where,
  update_where-HasKeys, All-row,
}
use personal_deadline_manage.Store.TaskRepository
use personal_deadline_manage.Store.TaskRepository.{
  task_id, insert_task, update_task_row, delete_task_row,
}
use personal_deadline_manage.Store.ReminderRepository
use personal_deadline_manage.Store.ReminderRepository.{
  reminder_id, insert_reminder, update_reminder_row, delete_reminder_row, claimable, as_sent, claim,
}
use personal_deadline_manage.Store.ConfirmationRepository.{
  confirmation_id, insert_confirmation, lapsed, as_expired, expire, confirmable, as_confirmed, win,
  save_expired,
}

-- The foreign key of a reminder names a task.
abbrev pub HasTask : List Task → Reminder → Type 0
HasTask tasks r = row task_id r.task_id tasks ≢ none

pub record WellFormed (db : Db) : Type 0 where
  pub task_keys : HasKeys task_id db.tasks
  pub reminder_keys : HasKeys reminder_id db.reminders
  pub confirmation_keys : HasKeys confirmation_id db.confirmations
  pub parents : All (HasTask db.tasks) db.reminders

HasTask-append :
    (tasks : List Task) (t : Task) (r : Reminder) → HasTask tasks r → HasTask (tasks ++ t ∷ []) r
HasTask-append tasks t r h = ground (arith, row-append task_id r.task_id tasks t)

pub insert_task-WellFormed : (t : Task) (db : Db) → WellFormed db → WellFormed (insert_task t db).1
unfolding insert_task
insert_task-WellFormed t db w = elim (Option-cases (row task_id t.id db.tasks)) [
  | inl free ↦
      rw (free, insert_task)
        (record {
          task_keys = append-HasKeys task_id db.tasks t w.task_keys free;
          reminder_keys = w.reminder_keys;
          confirmation_keys = w.confirmation_keys;
          parents =
              All-mono (HasTask db.tasks) (HasTask (db.tasks ++ t ∷ [])) (HasTask-append db.tasks t)
                db.reminders w.parents;
        })
  | inr (old, taken) ↦ rw (taken, insert_task) w
]

put_task-WellFormed :
    (new : Task) (db : Db)
    → WellFormed db
    → WellFormed (record db { tasks = put task_id new db.tasks })
put_task-WellFormed new db w = record {
  task_keys = put-HasKeys task_id new db.tasks w.task_keys;
  reminder_keys = w.reminder_keys;
  confirmation_keys = w.confirmation_keys;
  parents =
      All-mono (HasTask db.tasks) (HasTask (put task_id new db.tasks))
        (λ r. row-put_keeps task_id r.task_id new db.tasks) db.reminders w.parents;
}

pub update_task_row-WellFormed :
    (now : Moment) (k : Uuid) (change : Task → Task) (db : Db)
    → WellFormed db
    → WellFormed (update_task_row now k change db).1
unfolding update_task_row
update_task_row-WellFormed now k change db w = elim (Option-cases (row task_id k db.tasks)) [
  | inl gone ↦ rw (gone, update_task_row) w
  | inr (old, here) ↦
      rw (here, update_task_row) (put_task-WellFormed (TaskRepository.touch now change old) db w)
]

pub delete_task_row-WellFormed :
    (k : Uuid) (db : Db) → WellFormed db → WellFormed (delete_task_row k db).1
unfolding delete_task_row
delete_task_row-WellFormed k db w = record {
  task_keys = without-HasKeys task_id k db.tasks w.task_keys;
  reminder_keys =
      filter-HasKeys reminder_id (λ r. not (r.task_id == k)) db.reminders w.reminder_keys;
  confirmation_keys = w.confirmation_keys;
  parents =
      All-filter (HasTask db.tasks) (HasTask (without task_id k db.tasks))
        (λ r. not (r.task_id == k))
        (λ r kept p. ground (arith, row-without_ne task_id r.task_id k db.tasks)) db.reminders
        w.parents;
}

pub insert_reminder-WellFormed :
    (r : Reminder) (db : Db) → WellFormed db → WellFormed (insert_reminder r db).1
unfolding insert_reminder
insert_reminder-WellFormed r db w = elim (Option-cases (row task_id r.task_id db.tasks)) [
  | inl orphan ↦ rw (orphan, insert_reminder) w
  | inr (t, parent) ↦ elim (Option-cases (row reminder_id r.id db.reminders)) [
    | inl free ↦
        rw (parent, insert_reminder)
          (rw free (record {
            task_keys = w.task_keys;
            reminder_keys = append-HasKeys reminder_id db.reminders r w.reminder_keys free;
            confirmation_keys = w.confirmation_keys;
            parents =
                All-append (HasTask db.tasks) db.reminders (r ∷ []) w.parents
                  ((λ e. cc (parent, e), tt));
          }))
    | inr (old, taken) ↦ rw (parent, insert_reminder) (rw taken w)
  ]
]

task_id-touch :
    (now : Moment) (change : Reminder → Reminder) (old : Reminder)
    → (change old).task_id ≡ old.task_id
    → (ReminderRepository.touch now change old).task_id ≡ old.task_id
unfolding ReminderRepository.touch
task_id-touch now change old keep = ground arith

pub update_reminder_row-WellFormed :
    (now : Moment) (k : Uuid) (change : Reminder → Reminder) (db : Db)
    → ((r : Reminder) → (change r).task_id ≡ r.task_id)
    → WellFormed db
    → WellFormed (update_reminder_row now k change db).1
unfolding update_reminder_row
update_reminder_row-WellFormed now k change db keep w =
    elim (Option-cases (row reminder_id k db.reminders)) [
      | inl gone ↦ rw (gone, update_reminder_row) w
      | inr (old, here) ↦
          let new = ReminderRepository.touch now change old in
          rw (here, update_reminder_row)
            (record {
              task_keys = w.task_keys;
              reminder_keys = put-HasKeys reminder_id new db.reminders w.reminder_keys;
              confirmation_keys = w.confirmation_keys;
              parents =
                  All-put reminder_id (HasTask db.tasks) new db.reminders
                    (rw (task_id-touch now change old (keep old))
                      (All-row reminder_id (HasTask db.tasks) k db.reminders old w.parents here))
                    w.parents;
            })
    ]

pub delete_reminder_row-WellFormed :
    (k : Uuid) (db : Db) → WellFormed db → WellFormed (delete_reminder_row k db).1
unfolding delete_reminder_row
delete_reminder_row-WellFormed k db w = record {
  task_keys = w.task_keys;
  reminder_keys = without-HasKeys reminder_id k db.reminders w.reminder_keys;
  confirmation_keys = w.confirmation_keys;
  parents = All-without reminder_id (HasTask db.tasks) k db.reminders w.parents;
}

All-update_where :
    (tasks : List Task) (p : Reminder → Bool) (set : Reminder → Reminder)
    → ((r : Reminder) → (set r).task_id ≡ r.task_id)
    → (rs : List Reminder) → All (HasTask tasks) rs
    → All (HasTask tasks) (update_where p set rs)
All-update_where tasks p set keep [] h = tt
All-update_where tasks p set keep (r ∷ rs) h = (
  elim (Bool-cases (p r)) [ inl hit ↦ rw hit (rw (keep r) h.0) | inr miss ↦ rw miss h.0 ],
  All-update_where tasks p set keep rs h.1,
)

pub claim-WellFormed :
    (k : Uuid) (now : Moment) (db : Db) → WellFormed db → WellFormed (claim k now db).1
unfolding claim
claim-WellFormed k now db w = record {
  task_keys = w.task_keys;
  reminder_keys =
      update_where-HasKeys reminder_id (claimable k now) (as_sent now) (λ r. refl) db.reminders
        w.reminder_keys;
  confirmation_keys = w.confirmation_keys;
  parents =
      All-update_where db.tasks (claimable k now) (as_sent now) (λ r. refl) db.reminders w.parents;
}

module _ (db : Db) (w : WellFormed db) where
  confirmations-WellFormed :
      (cs : List PendingConfirmation)
      → HasKeys confirmation_id cs
      → WellFormed (record db { confirmations = cs })
  confirmations-WellFormed cs keys = record {
    task_keys = w.task_keys;
    reminder_keys = w.reminder_keys;
    confirmation_keys = keys;
    parents = w.parents;
  }

  pub insert_confirmation-WellFormed :
      (c : PendingConfirmation) → WellFormed (insert_confirmation c db).1
  unfolding insert_confirmation
  insert_confirmation-WellFormed c =
      elim (Option-cases (row confirmation_id c.id db.confirmations)) [
        | inl free ↦
            rw (free, insert_confirmation)
              (confirmations-WellFormed _
                (append-HasKeys confirmation_id db.confirmations c w.confirmation_keys free))
        | inr (old, taken) ↦ rw (taken, insert_confirmation) w
      ]

  pub expire-WellFormed : (now : Moment) → WellFormed (expire now db).1
  unfolding expire
  expire-WellFormed now = confirmations-WellFormed _ (
      update_where-HasKeys confirmation_id (lapsed now) as_expired (λ c. refl) db.confirmations
        w.confirmation_keys)

  pub win-WellFormed :
      (k : Uuid) (user : Option Uuid) (now : Moment) → WellFormed (win k user now db).1
  unfolding win
  win-WellFormed k user now = confirmations-WellFormed _ (
      update_where-HasKeys confirmation_id (confirmable k user now) as_confirmed (λ c. refl)
        db.confirmations w.confirmation_keys)

  pub save_expired-WellFormed : (k : Uuid) → WellFormed (save_expired k db).1
  unfolding save_expired
  save_expired-WellFormed k = elim (Option-cases (row confirmation_id k db.confirmations)) [
    | inl gone ↦ rw (gone, save_expired) w
    | inr (c, here) ↦
        rw (here, save_expired)
          (confirmations-WellFormed _
            (put-HasKeys confirmation_id (as_expired c) db.confirmations w.confirmation_keys))
  ]
