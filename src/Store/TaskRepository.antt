-- ===== src/Store/TaskRepository.antt =====
-- repositories/task_repository.py. `now` is the time that the database layer reads for the
-- `onupdate` of `updated_at`.
use mathlib.Core.Logic.{ite}
use personal_deadline_manage.Common.{
  Bool, true, false, ◌&&◌, Option, none, some, List, [], ◌∷◌, ◌++◌, ◌==◌, not, leb, filter,
}
use personal_deadline_manage.Common.Order.{nat_order, text_order}
use personal_deadline_manage.Common.Sort.{sort_by}
use personal_deadline_manage.Model.{Uuid, Text, Moment, Task, Task-discrete, Reminder}
use personal_deadline_manage.Store.Transaction.{
  Db, Result, ok, err, database_error, Action, pure, statement, select, ◌>>=◌,
}
use personal_deadline_manage.Store.Rows.{row, put, without}

abbrev pub task_id : Task → Uuid
task_id t = t.id

-- INSERT; a second row with the same primary key is refused.
unfoldable pub insert_task : Task → Db → Result Task × Db
insert_task task db = elim (row task_id task.id db.tasks) [
  | none ↦ (ok task, record db { tasks = db.tasks ++ task ∷ [] })
  | some _ ↦ (err database_error, db)
]

unfoldable pub create : Task → Action Task
unfolding insert_task
create task = statement (insert_task task)

unfoldable pub get_by_id : Uuid → Action (Option Task)
get_by_id k = select (λ db. row task_id k db.tasks)

-- `ilike pattern name` is the database's case-insensitive match of a name with `%phrase%`.
unfoldable pub find_by_name : (Text → Text → Bool) → Text → Action (List Task)
find_by_name ilike phrase =
    select
      (λ db. sort_by (λ (t : Task). t.task_name) (filter (λ t. ilike phrase t.task_name) db.tasks))

abbrev pub in_range : Moment → Moment → Task → Bool
in_range start end t = leb start t.deadline && leb t.deadline end

unfoldable pub find_by_deadline_range : Moment → Moment → Action (List Task)
find_by_deadline_range start end =
    select (λ db. sort_by (λ (t : Task). t.deadline) (filter (in_range start end) db.tasks))

unfoldable pub list : Action (List Task)
list = select (λ db. db.tasks)

-- The flush sends the columns that `change` assigned, and nothing where none has a new value.
unfoldable pub touch : Moment → (Task → Task) → Task → Task
touch now change old =
    ite (Task-discrete old (change old)) old (record (change old) { updated_at = now })

-- UPDATE of a loaded row; a row that is gone is a stale-data error.
unfoldable pub update_task_row : Moment → Uuid → (Task → Task) → Db → Result Task × Db
unfolding touch
update_task_row now k change db = elim (row task_id k db.tasks) [
  | none ↦ (err database_error, db)
  | some old ↦
      (ok (touch now change old), record db { tasks = put task_id (touch now change old) db.tasks })
]

-- `update(task)`, where `task` is the row `k` after the assignments `change`.
unfoldable pub update : Moment → Uuid → (Task → Task) → Action Task
unfolding update_task_row
update now k change = statement (update_task_row now k change)

-- ON DELETE CASCADE takes the reminders of the task.
unfoldable pub delete_task_row : Uuid → Db → Result Bool × Db
delete_task_row k db = (
  ok true,
  record db {
    tasks = without task_id k db.tasks;
    reminders = filter (λ (r : Reminder). not (r.task_id == k)) db.reminders;
  },
)

abbrev pub delete_found : Uuid → Option Task → Action Bool
delete_found k none = pure false
delete_found k (some _) = statement (delete_task_row k)

unfoldable pub delete : Uuid → Action Bool
unfolding get_by_id delete_task_row
delete k = do found ← get_by_id k; delete_found k found
