-- ===== src/Tests/Data.antt =====
-- Two tasks, three reminders and two commands.
use personal_deadline_manage.Common.{none, some, [], ◌∷◌, Bool, ◌==◌, refl}
use personal_deadline_manage.Common.Int.{pos}
use personal_deadline_manage.Model.{
  Task, TaskPriority, TaskStatus, Reminder, ReminderStatus, PendingConfirmation,
  PendingConfirmationStatus, known,
}
use personal_deadline_manage.Store.{Db}
use personal_deadline_manage.Store.WellFormed.{WellFormed}

abbrev pub report : Task
report = record {
  id = 1;
  task_name = 114 ∷ [];
  description = none;
  deadline = 1000;
  duration_minutes = some (pos 30);
  priority = known TaskPriority.high;
  status = known TaskStatus.todo;
  created_at = 10;
  updated_at = 10;
}

abbrev pub essay : Task
essay = record report { id = 2; task_name = 101 ∷ []; deadline = 2000 }

abbrev pub early : Reminder
early = record {
  id = 11;
  task_id = 1;
  remind_at = 500;
  status = ReminderStatus.pending;
  created_at = 10;
  updated_at = 10;
}

abbrev pub late : Reminder
late = record early { id = 12; task_id = 2; remind_at = 1500 }

abbrev pub sent_one : Reminder
sent_one = record early { id = 13; status = ReminderStatus.sent }

abbrev pub command : PendingConfirmation
command = record {
  id = 21;
  user_id = none;
  execution_command = [];
  created_at = 10;
  expires_at = 800;
  status = PendingConfirmationStatus.pending;
}

abbrev pub done_command : PendingConfirmation
done_command = record command { id = 22; status = PendingConfirmationStatus.confirmed }

abbrev pub tables : Db
tables = record {
  tasks = report ∷ essay ∷ [];
  reminders = late ∷ early ∷ sent_one ∷ [];
  confirmations = command ∷ done_command ∷ [];
}

pub tables-WellFormed : WellFormed tables
tables-WellFormed = record {
  task_keys = (refl, (refl, tt));
  reminder_keys = (refl, (refl, (refl, tt)));
  confirmation_keys = (refl, (refl, tt));
  parents = (λ e. cc, (λ e. cc, (λ e. cc, tt)));
}

-- The provider fails on every reminder of the second task.
abbrev pub send_first : Reminder → Task → Bool
send_first r t = t.id == 1
