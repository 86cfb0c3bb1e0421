-- ===== src/TaskModule/Invariant.antt =====
-- The use cases on tasks: the keys of the tables, and how the transactions end.
use personal_deadline_manage.Common.{Option}
use personal_deadline_manage.Common.Int.{ℤ}
use personal_deadline_manage.Model.{Uuid, Text, Moment, TaskPriority, Column}
use personal_deadline_manage.Store.{Session}
use personal_deadline_manage.Store.Keeps.{Keeps, keeps_rules}
use personal_deadline_manage.Store.Atomic.{
  Isolated, isolated_rules, IsQuiet, Settles, transact-Settles,
}
use personal_deadline_manage.Store.WellFormed.{
  WellFormed, insert_task-WellFormed, update_task_row-WellFormed,
}
use personal_deadline_manage.Store.Deletes.{delete_found_task-Keeps, delete_found_task-Isolated}
use personal_deadline_manage.TaskService
use personal_deadline_manage.TaskService.{TaskPatch}
use personal_deadline_manage.TaskModule.{create_task, update_task, delete_task}

module _ (fresh : Uuid) (now : Moment) (name : Text) (description : Option Text) (deadline : Moment)
    (priority : Column TaskPriority) (duration : Option ℤ) where
  pub create_task-WellFormed :
      Keeps WellFormed (create_task fresh now name description deadline priority duration)
  unfolding create_task TaskService.create_task
  create_task-WellFormed = search (keeps_rules, insert_task-WellFormed) depth 12

  pub service_create_task-Isolated :
      Isolated (TaskService.create_task fresh now name description deadline priority duration)
  unfolding TaskService.create_task
  service_create_task-Isolated = search isolated_rules

  -- Creating a task commits what it wrote, or raises and leaves the tables as they were.
  pub create_task-Settles :
      (s : Session)
      → IsQuiet s
      → Settles s.committed
          (TaskService.create_task fresh now name description deadline priority duration s)
          (create_task fresh now name description deadline priority duration s)
  unfolding create_task
  create_task-Settles s q = transact-Settles _ s service_create_task-Isolated q

module _ (now : Moment) (k : Uuid) (patch : TaskPatch) where
  -- Updating a task keeps ids unique and a task for each reminder, in the committed tables and
  -- those that the session sees, whether it returns or raises, if other transactions keep them
  -- too.
  pub update_task-WellFormed : Keeps WellFormed (update_task now k patch)
  unfolding update_task TaskService.update_task
  update_task-WellFormed = search (keeps_rules, update_task_row-WellFormed) depth 12

  pub service_update_task-Isolated : Isolated (TaskService.update_task now k patch)
  unfolding TaskService.update_task
  service_update_task-Isolated = search isolated_rules depth 12

  -- Where no other transaction commits meanwhile, updating a task returns what the service
  -- returned, with all that it wrote committed, or raises and leaves the tables as they were,
  -- whichever statement or commit fails.
  pub update_task-Settles :
      (s : Session)
      → IsQuiet s
      → Settles s.committed (TaskService.update_task now k patch s) (update_task now k patch s)
  unfolding update_task
  update_task-Settles s q = transact-Settles _ s service_update_task-Isolated q

module _ (k : Uuid) where
  -- Deleting a task keeps ids unique and a task for each reminder, in the committed tables and
  -- those that the session sees, whether it returns or raises, if other transactions keep them
  -- too.
  pub delete_task-WellFormed : Keeps WellFormed (delete_task k)
  unfolding delete_task TaskService.delete_task
  delete_task-WellFormed = search (keeps_rules, delete_found_task-Keeps) depth 12

  pub service_delete_task-Isolated : Isolated (TaskService.delete_task k)
  unfolding TaskService.delete_task
  service_delete_task-Isolated = search (isolated_rules, delete_found_task-Isolated) depth 12

  pub delete_task-Settles :
      (s : Session)
      → IsQuiet s
      → Settles s.committed (TaskService.delete_task k s) (delete_task k s)
  unfolding delete_task
  delete_task-Settles s q = transact-Settles _ s service_delete_task-Isolated q
