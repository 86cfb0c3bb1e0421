-- ===== src/ReminderModule.antt =====
-- modules/reminder_module.py: the use cases on reminders, each its own transaction.
pub mod Invariant
pub mod Sent
pub mod Creates
pub mod Updates
use personal_deadline_manage.Common.{Option, List}
use personal_deadline_manage.Model.{Uuid, Moment, Reminder, ReminderStatus, Column}
use personal_deadline_manage.Store.{Action, transact}
use personal_deadline_manage.ReminderService

unfoldable pub create_reminder : Uuid → Moment → Uuid → Moment → Action Reminder
create_reminder fresh now task_id remind_at =
    transact (ReminderService.create_reminder fresh now task_id remind_at)

unfoldable pub get_reminder : Uuid → Action Reminder
get_reminder k = ReminderService.get_reminder k

unfoldable pub list_reminders_by_task : Uuid → Action (List Reminder)
list_reminders_by_task k = ReminderService.list_reminders_by_task k

unfoldable pub update_reminder :
    Moment → Uuid → Option Moment → Option (Column ReminderStatus) → Action Reminder
update_reminder now k remind_at status =
    transact (ReminderService.update_reminder now k remind_at status)

unfoldable pub delete_reminder : Uuid → Action (Unit {0})
delete_reminder k = transact (ReminderService.delete_reminder k)
