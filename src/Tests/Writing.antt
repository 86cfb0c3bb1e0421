-- ===== src/Tests/Writing.antt =====
-- Use cases on concrete tables.
use personal_deadline_manage.Common.{refl, none, some, ◌∷◌, []}
use personal_deadline_manage.Common.Int.{pos}
use personal_deadline_manage.Model.{TaskStatus, ReminderStatus, known}
use personal_deadline_manage.Store.{calm, fault, open_session}
use personal_deadline_manage.Store.Keeps.{Keeps}
use personal_deadline_manage.Store.Atomic.{Settles}
use personal_deadline_manage.Store.WellFormed.{WellFormed}
use personal_deadline_manage.TaskService
use personal_deadline_manage.TaskService.{TaskPatch, unset, given}
use personal_deadline_manage.TaskModule.{update_task, delete_task}
use personal_deadline_manage.TaskModule.Invariant.{update_task-Settles, delete_task-WellFormed}
use personal_deadline_manage.ReminderModule.{create_reminder, update_reminder}
use personal_deadline_manage.ReminderModule.Creates.{Creates, create_reminder-Creates}
use personal_deadline_manage.ReminderModule.Updates.{Updates, update_reminder-Updates}
use personal_deadline_manage.ReminderModule.Sent.{Stays, update_reminder-Stays}
use personal_deadline_manage.Tests.Data.{tables, report, early, sent_one}

abbrev patch : TaskPatch
patch = record {
  task_name = none;
  description = given none;
  deadline = some 3000;
  priority = none;
  status = some (known TaskStatus.in_progress);
  duration_minutes = given (some (pos 45));
}

update_task-Settles_example :
    Settles tables
      (TaskService.update_task 600 1 patch (open_session tables (calm ∷ fault ∷ [])))
      (update_task 600 1 patch (open_session tables (calm ∷ fault ∷ [])))
update_task-Settles_example =
    update_task-Settles 600 1 patch (open_session tables (calm ∷ fault ∷ [])) (tt, (tt, tt))

delete_task-WellFormed_example : Keeps WellFormed (delete_task 1)
delete_task-WellFormed_example = delete_task-WellFormed 1

create_reminder-Creates_example :
    Creates 14 600 1 900 tables
      (some report)
      (create_reminder 14 600 1 900 (open_session tables []))
create_reminder-Creates_example = create_reminder-Creates 14 600 1 900 tables refl

update_reminder-Updates_example :
    Updates 600 (some 900) (some (known ReminderStatus.cancelled)) tables early report (
      update_reminder 600 11
        (some 900)
        (some (known ReminderStatus.cancelled))
        (open_session tables []))
update_reminder-Updates_example =
    update_reminder-Updates 600 11 tables early report refl refl (some 900)
      (some (known ReminderStatus.cancelled))

update_reminder-Stays_example : Keeps (Stays sent_one refl) (update_reminder 600 13 (some 900) none)
update_reminder-Stays_example = update_reminder-Stays sent_one refl 600 13 (some 900) none
