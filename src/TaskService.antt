-- ===== src/TaskService.antt =====
-- services/task_service.py. `fresh` is the UUID of a new row and `now`
-- the time that the call reads; an exception's text is left out.
use personal_deadline_manage.Common.{Bool, false, Option, none, some, List, ltb}
use personal_deadline_manage.Common.Int.{ℤ, pos, leb_ℤ}
use personal_deadline_manage.Model.{
  Uuid, Text, Moment, Task, TaskPriority, TaskStatus, Column, known,
}
use personal_deadline_manage.Store.{
  Action, task_not_found, invalid_task, raise_if, or_raise, pure, ◌>>=◌, ◌>>◌,
}
use personal_deadline_manage.Store.TaskRepository

-- A keyword argument whose default is `_UNSET`.
pub data Field (A : Type 0) : Type 0 where
  unset : Field A
  given : A → Field A

-- `duration_minutes is not None and duration_minutes <= 0`
abbrev pub not_positive : Option ℤ → Bool
not_positive none = false
not_positive (some d) = leb_ℤ d (pos 0)

unfoldable pub create_task :
    Uuid → Moment → Text → Option Text → Moment → Column TaskPriority → Option ℤ → Action Task
unfolding TaskRepository.create
create_task fresh now task_name description deadline priority duration_minutes = do
  raise_if (ltb deadline now) invalid_task
  raise_if (not_positive duration_minutes) invalid_task
  TaskRepository.create (record {
    id = fresh;
    task_name = task_name;
    description = description;
    deadline = deadline;
    duration_minutes = duration_minutes;
    priority = priority;
    status = known TaskStatus.todo;
    created_at = now;
    updated_at = now;
  })

unfoldable pub get_task : Uuid → Action Task
unfolding TaskRepository.get_by_id
get_task k = do task ← TaskRepository.get_by_id k; or_raise task (task_not_found k)

unfoldable pub list_tasks : Action (List Task)
unfolding TaskRepository.list
list_tasks = TaskRepository.list

-- The keyword arguments of `update_task`.
pub record TaskPatch : Type 0 where
  pub task_name : Option Text
  pub description : Field (Option Text)
  pub deadline : Option Moment
  pub priority : Option (Column TaskPriority)
  pub status : Option (Column TaskStatus)
  pub duration_minutes : Field (Option ℤ)

-- `deadline is not None and deadline < now`
abbrev pub is_past : Moment → Option Moment → Bool
is_past now none = false
is_past now (some d) = ltb d now

abbrev pub bad_duration : Field (Option ℤ) → Bool
bad_duration unset = false
bad_duration (given d) = not_positive d

abbrev pub or_keep : {A : Type 0} → Option A → A → A
or_keep none old = old
or_keep (some new) old = new

abbrev pub or_unset : {A : Type 0} → Field A → A → A
or_unset unset old = old
or_unset (given new) old = new

-- The assignments to the loaded task.
unfoldable pub assign : TaskPatch → Task → Task
assign p t = record t {
  duration_minutes = or_unset p.duration_minutes t.duration_minutes;
  task_name = or_keep p.task_name t.task_name;
  description = or_unset p.description t.description;
  deadline = or_keep p.deadline t.deadline;
  priority = or_keep p.priority t.priority;
  status = or_keep p.status t.status;
}

unfoldable pub update_task : Moment → Uuid → TaskPatch → Action Task
unfolding get_task assign TaskRepository.update
update_task now k patch = do
  get_task k
  raise_if (is_past now patch.deadline) invalid_task
  raise_if (bad_duration patch.duration_minutes) invalid_task
  TaskRepository.update now k (assign patch)

unfoldable pub delete_task : Uuid → Action (Unit {0})
unfolding TaskRepository.get_by_id TaskRepository.delete
delete_task k = do
  task ← TaskRepository.get_by_id k
  or_raise task (task_not_found k)
  TaskRepository.delete k
  pure tt
