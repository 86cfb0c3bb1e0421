-- ===== src/Store/Deletes.antt =====
-- The deletions, which look before they delete.
use personal_deadline_manage.Common.{Option, none, some}
use personal_deadline_manage.Model.{Uuid, Task, Reminder}
use personal_deadline_manage.Store.Keeps.{Keeps, Keeps-statement, Keeps-pure}
use personal_deadline_manage.Store.Atomic.{Isolated, Isolated-statement, Isolated-pure}
use personal_deadline_manage.Store.WellFormed.{
  WellFormed, delete_task_row-WellFormed, delete_reminder_row-WellFormed,
}
use personal_deadline_manage.Store.TaskRepository
use personal_deadline_manage.Store.ReminderRepository

pub delete_found_task-Keeps :
    (k : Uuid) (o : Option Task) → Keeps WellFormed (TaskRepository.delete_found k o)
delete_found_task-Keeps k none = Keeps-pure WellFormed _
delete_found_task-Keeps k (some t) = Keeps-statement WellFormed _ (delete_task_row-WellFormed k)

pub delete_found_task-Isolated :
    (k : Uuid) (o : Option Task) → Isolated (TaskRepository.delete_found k o)
delete_found_task-Isolated k none = Isolated-pure _
delete_found_task-Isolated k (some t) = Isolated-statement _

pub delete_found_reminder-Keeps :
    (k : Uuid) (o : Option Reminder) → Keeps WellFormed (ReminderRepository.delete_found k o)
delete_found_reminder-Keeps k none = Keeps-pure WellFormed _
delete_found_reminder-Keeps k (some r) =
    Keeps-statement WellFormed _ (delete_reminder_row-WellFormed k)

pub delete_found_reminder-Isolated :
    (k : Uuid) (o : Option Reminder) → Isolated (ReminderRepository.delete_found k o)
delete_found_reminder-Isolated k none = Isolated-pure _
delete_found_reminder-Isolated k (some r) = Isolated-statement _
