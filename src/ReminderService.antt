-- ===== src/ReminderService.antt =====
-- services/reminder_service.py. `fresh` is the UUID of a new row and `now` the time that the call
-- reads; an exception's text is left out.
use personal_deadline_manage.Common.{Option, none, some, List, ltb}
use personal_deadline_manage.Model.{
  Uuid, Moment, Reminder, ReminderStatus, is_sent, Column, known, unknown,
}
use personal_deadline_manage.Store.{
  Action, task_not_found, reminder_not_found, invalid_reminder, raise, raise_if, or_raise, pure,
  ◌>>=◌, ◌>>◌,
}
use personal_deadline_manage.Store.TaskRepository
use personal_deadline_manage.Store.ReminderRepository

unfoldable pub create_reminder : Uuid → Moment → Uuid → Moment → Action Reminder
unfolding TaskRepository.get_by_id ReminderRepository.create
create_reminder fresh now task_id remind_at = do
  found ← TaskRepository.get_by_id task_id
  task ← or_raise found (task_not_found task_id)
  raise_if (ltb task.deadline remind_at) invalid_reminder
  ReminderRepository.create (record {
    id = fresh;
    task_id = task_id;
    remind_at = remind_at;
    status = ReminderStatus.pending;
    created_at = now;
    updated_at = now;
  })

unfoldable pub get_reminder : Uuid → Action Reminder
unfolding ReminderRepository.get_by_id
get_reminder k = do
  reminder ← ReminderRepository.get_by_id k
  or_raise reminder (reminder_not_found k)

unfoldable pub list_reminders_by_task : Uuid → Action (List Reminder)
unfolding TaskRepository.get_by_id ReminderRepository.list_by_task_id
list_reminders_by_task task_id = do
  task ← TaskRepository.get_by_id task_id
  or_raise task (task_not_found task_id)
  ReminderRepository.list_by_task_id task_id

-- `if remind_at is not None:` the new time is checked against the parent task's deadline.
unfoldable pub check_deadline : Uuid → Option Moment → Action (Unit {0})
unfolding TaskRepository.get_by_id
check_deadline task_id none = pure tt
check_deadline task_id (some remind_at) = do
  found ← TaskRepository.get_by_id task_id
  task ← or_raise found (task_not_found task_id)
  raise_if (ltb task.deadline remind_at) invalid_reminder

-- `status_value`: only PENDING and CANCELLED may be assigned.
abbrev pub status_value : Option (Column ReminderStatus) → Action (Option ReminderStatus)
status_value none = pure none
status_value (some (known ReminderStatus.pending)) = pure (some ReminderStatus.pending)
status_value (some (known ReminderStatus.cancelled)) = pure (some ReminderStatus.cancelled)
status_value (some (known ReminderStatus.sent)) = raise invalid_reminder
status_value (some (unknown text)) = raise invalid_reminder

abbrev pub or_keep : {A : Type 0} → Option A → A → A
or_keep none old = old
or_keep (some new) old = new

-- The assignments to the loaded reminder.
unfoldable pub assign : Option Moment → Option ReminderStatus → Reminder → Reminder
assign remind_at status r = record r {
  remind_at = or_keep remind_at r.remind_at;
  status = or_keep status r.status;
}

unfoldable pub update_reminder :
    Moment → Uuid → Option Moment → Option (Column ReminderStatus) → Action Reminder
unfolding get_reminder check_deadline assign ReminderRepository.update
update_reminder now k remind_at status = do
  reminder ← get_reminder k
  raise_if (is_sent reminder.status) invalid_reminder
  check_deadline reminder.task_id remind_at
  new_status ← status_value status
  ReminderRepository.update now k (assign remind_at new_status)

unfoldable pub delete_reminder : Uuid → Action (Unit {0})
unfolding ReminderRepository.get_by_id ReminderRepository.delete
delete_reminder k = do
  reminder ← ReminderRepository.get_by_id k
  or_raise reminder (reminder_not_found k)
  ReminderRepository.delete k
  pure tt
