-- ===== src/ReminderHandler.antt =====
-- schemas/reminder.py and handlers/reminder_handler.py. The body of a request is as pydantic has
-- read it by its types; texts of messages are left out.
use personal_deadline_manage.Common.{Option, none, some, List}
use personal_deadline_manage.Model.{Uuid, Moment, Reminder, ReminderStatus, Column, known}
use personal_deadline_manage.Store.{database_error, Session, Action, or_raise, ◌>>=◌}
use personal_deadline_manage.Store.ReminderRepository
use personal_deadline_manage.TaskService.{Field}
use personal_deadline_manage.ReminderModule
use personal_deadline_manage.Parameters.{Parsed, require_aware_utc}
use personal_deadline_manage.TaskHandler.{
  deadline_must_be_aware, argument, HttpResponse, status_for, respond, validated,
}

-- `AssignableReminderStatus`: any other status is refused by its type.
pub data AssignableReminderStatus : Type 0 where
  pending cancelled : AssignableReminderStatus

pub record ReminderUpdateRequest : Type 0 where
  pub remind_at : Field (Option Parsed)
  pub status : Field (Option AssignableReminderStatus)

abbrev pub assignable : Option AssignableReminderStatus → Option (Column ReminderStatus)
assignable none = none
assignable (some AssignableReminderStatus.pending) = some (known ReminderStatus.pending)
assignable (some AssignableReminderStatus.cancelled) = some (known ReminderStatus.cancelled)

-- ReminderResponseData has the columns of a reminder; the commit has expired the row.
unfoldable pub from_domain : Reminder → Action Reminder
unfolding ReminderRepository.get_by_id
from_domain r = do found ← ReminderRepository.get_by_id r.id; or_raise found database_error

-- `remind_at` is the field of ReminderCreateRequest.
unfoldable pub create_reminder :
    Uuid → Moment → Uuid → Parsed → Session → HttpResponse Reminder × Session
unfolding ReminderModule.create_reminder from_domain status_for
create_reminder fresh now task_id remind_at =
    validated (require_aware_utc remind_at)
      (λ t s. respond 201 ((ReminderModule.create_reminder fresh now task_id t >>= from_domain) s))

unfoldable pub list_task_reminders : Uuid → Session → HttpResponse (List Reminder) × Session
unfolding ReminderModule.list_reminders_by_task status_for
list_task_reminders task_id s = respond 200 (ReminderModule.list_reminders_by_task task_id s)

unfoldable pub update_reminder :
    Moment → Uuid → ReminderUpdateRequest → Session → HttpResponse Reminder × Session
unfolding ReminderModule.update_reminder from_domain deadline_must_be_aware status_for
update_reminder now k request = validated (deadline_must_be_aware request.remind_at) (λ remind_at s.
    respond 200 (
      (ReminderModule.update_reminder now k remind_at (assignable (argument request.status))
          >>= from_domain)
        s))

unfoldable pub delete_reminder : Uuid → Session → HttpResponse (Unit {0}) × Session
unfolding ReminderModule.delete_reminder status_for
delete_reminder k s = respond 204 (ReminderModule.delete_reminder k s)
