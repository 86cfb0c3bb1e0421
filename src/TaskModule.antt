-- ===== src/TaskModule.antt =====
-- modules/task_module.py: the use cases on tasks, each its own transaction.
pub mod Invariant
use personal_deadline_manage.Common.{Option, List}
use personal_deadline_manage.Common.Int.{ℤ}
use personal_deadline_manage.Model.{Uuid, Text, Moment, Task, TaskPriority, Column}
use personal_deadline_manage.Store.{Action, transact}
use personal_deadline_manage.Store.TaskRepository
use personal_deadline_manage.TaskService
use personal_deadline_manage.TaskService.{TaskPatch}

unfoldable pub create_task :
    Uuid → Moment → Text → Option Text → Moment → Column TaskPriority → Option ℤ → Action Task
create_task fresh now task_name description deadline priority duration_minutes =
    transact
      (TaskService.create_task fresh now task_name description deadline priority duration_minutes)

unfoldable pub get_task : Uuid → Action Task
get_task k = TaskService.get_task k

unfoldable pub list_tasks : Action (List Task)
list_tasks = TaskService.list_tasks

unfoldable pub update_task : Moment → Uuid → TaskPatch → Action Task
update_task now k patch = transact (TaskService.update_task now k patch)

unfoldable pub delete_task : Uuid → Action (Unit {0})
delete_task k = transact (TaskService.delete_task k)

unfoldable pub find_tasks_by_deadline_range : Moment → Moment → Action (List Task)
find_tasks_by_deadline_range start end = TaskRepository.find_by_deadline_range start end
