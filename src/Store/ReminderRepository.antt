-- ===== src/Store/ReminderRepository.antt =====
-- repositories/reminder_repository.py.
use mathlib.Core.Logic.{ite}
use personal_deadline_manage.Common.{
  ℕ, Bool, true, false, ◌&&◌, Option, none, some, List, [], ◌∷◌, ◌++◌, ◌==◌, leb, filter, take,
}
use personal_deadline_manage.Common.Order.{nat_order, pair_order}
use personal_deadline_manage.Common.Sort.{sort_by}
use personal_deadline_manage.Model.{
  Uuid, Text, Moment, Task, Reminder, Reminder-discrete, ReminderStatus, is_pending,
}
use personal_deadline_manage.Store.Transaction.{
  Db, Result, ok, err, database_error, Action, pure, statement, select, ◌>>=◌,
}
use personal_deadline_manage.Store.Rows.{row, put, without, update_where, count_where}
use personal_deadline_manage.Store.TaskRepository.{task_id}

abbrev pub reminder_id : Reminder → Uuid
reminder_id r = r.id

-- INSERT; the primary key has to be new, and the foreign key has to name a task.
unfoldable pub insert_reminder : Reminder → Db → Result Reminder × Db
insert_reminder reminder db = elim (row task_id reminder.task_id db.tasks) [
  | none ↦ (err database_error, db)
  | some _ ↦ elim (row reminder_id reminder.id db.reminders) [
    | none ↦ (ok reminder, record db { reminders = db.reminders ++ reminder ∷ [] })
    | some _ ↦ (err database_error, db)
  ]
]

unfoldable pub create : Reminder → Action Reminder
unfolding insert_reminder
create reminder = statement (insert_reminder reminder)

unfoldable pub get_by_id : Uuid → Action (Option Reminder)
get_by_id k = select (λ db. row reminder_id k db.reminders)

unfoldable pub list_by_task_id : Uuid → Action (List Reminder)
list_by_task_id k =
    select
      (λ db. sort_by (λ (r : Reminder). r.remind_at) (filter (λ r. r.task_id == k) db.reminders))

-- The join with the parent task, whose name the database matches with `%phrase%`.
abbrev pub parent_matches : (Text → Text → Bool) → Text → List Task → Reminder → Bool
parent_matches ilike phrase tasks r = elim (row task_id r.task_id tasks) [
  | none ↦ false
  | some t ↦ ilike phrase t.task_name
]

unfoldable pub find_by_task_name : (Text → Text → Bool) → Text → Action (List Reminder)
find_by_task_name ilike phrase = select (λ db.
    sort_by (λ (r : Reminder). r.remind_at)
      (filter (parent_matches ilike phrase db.tasks) db.reminders))

unfoldable pub touch : Moment → (Reminder → Reminder) → Reminder → Reminder
touch now change old =
    ite (Reminder-discrete old (change old)) old (record (change old) { updated_at = now })

unfoldable pub update_reminder_row :
    Moment → Uuid → (Reminder → Reminder) → Db → Result Reminder × Db
unfolding touch
update_reminder_row now k change db = elim (row reminder_id k db.reminders) [
  | none ↦ (err database_error, db)
  | some old ↦ (
    ok (touch now change old),
    record db { reminders = put reminder_id (touch now change old) db.reminders },
  )
]

unfoldable pub update : Moment → Uuid → (Reminder → Reminder) → Action Reminder
unfolding update_reminder_row
update now k change = statement (update_reminder_row now k change)

unfoldable pub delete_reminder_row : Uuid → Db → Result Bool × Db
delete_reminder_row k db = (ok true, record db { reminders = without reminder_id k db.reminders })

abbrev pub delete_found : Uuid → Option Reminder → Action Bool
delete_found k none = pure false
delete_found k (some _) = statement (delete_reminder_row k)

unfoldable pub delete : Uuid → Action Bool
unfolding get_by_id delete_reminder_row
delete k = do found ← get_by_id k; delete_found k found

-- `status == PENDING and remind_at <= now`
abbrev pub is_due : Moment → Reminder → Bool
is_due now r = is_pending r.status && leb r.remind_at now

abbrev pub due_key : Reminder → Moment × Uuid
due_key r = (r.remind_at, r.id)

-- The query of `find_due` on a table.
unfoldable pub due_rows : ℕ → Moment → List Reminder → List Reminder
due_rows limit now rs = take limit (sort_by due_key (filter (is_due now) rs))

unfoldable pub find_due : ℕ → Moment → Action (List Reminder)
unfolding due_rows
find_due limit now = select (λ db. due_rows limit now db.reminders)

abbrev pub claimable : Uuid → Moment → Reminder → Bool
claimable k now r = r.id == k && is_due now r

abbrev pub as_sent : Moment → Reminder → Reminder
as_sent now r = record r { status = ReminderStatus.sent; updated_at = now }

-- The conditional UPDATE of `mark_sent` on a table, with its row count.
unfoldable pub claim : Uuid → Moment → Db → Result ℕ × Db
claim k now db = (
  ok (count_where (claimable k now) db.reminders),
  record db { reminders = update_where (claimable k now) (as_sent now) db.reminders },
)

unfoldable pub mark_sent : Uuid → Moment → Action ℕ
unfolding claim
mark_sent k now = statement (claim k now)
