-- ===== src/Model.antt =====
-- src/personal_deadline_management_agent/models.py: the tables and their enums.
-- A UUID is its 128-bit number: the hexadecimal texts of two UUIDs compare as their numbers do.
-- A text is its list of code points. A UTC-aware datetime is the number of microseconds since
-- 0001-01-01T00:00:00Z, Python's first datetime.
pub mod Time
pub mod Calendar
use native.Mathlib.Decide.{ℕ_discrete}
use personal_deadline_manage.Common.{ℕ, ◌==◌, Bool, true, false, Option, none, some, List}
use personal_deadline_manage.Common.Int.{ℤ}

abbrev pub Uuid : Type 0
Uuid = ℕ

abbrev pub Text : Type 0
Text = List ℕ

abbrev pub Moment : Type 0
Moment = ℕ

pub data PendingConfirmationStatus : Type 0 where
  pending confirmed expired cancelled : PendingConfirmationStatus

pub data TaskPriority : Type 0 where
  low medium high : TaskPriority

pub data TaskStatus : Type 0 where
  todo in_progress completed cancelled : TaskStatus

pub data ReminderStatus : Type 0 where
  pending sent cancelled : ReminderStatus

-- A text column that the code compares with the values of an enum `E`: one of those values, or
-- any other text.
pub data Column (E : Type 0) : Type 0 where
  known : E → Column E
  unknown : Text → Column E

pub record Task : Type 0 where
  pub id : Uuid
  pub task_name : Text
  pub description : Option Text
  pub deadline : Moment
  pub duration_minutes : Option ℤ
  pub priority : Column TaskPriority
  pub status : Column TaskStatus
  pub created_at : Moment
  pub updated_at : Moment

pub record Reminder : Type 0 where
  pub id : Uuid
  pub task_id : Uuid
  pub remind_at : Moment
  pub status : ReminderStatus
  pub created_at : Moment
  pub updated_at : Moment

-- `execution_command` is the JSON text of a command.
pub record PendingConfirmation : Type 0 where
  pub id : Uuid
  pub user_id : Option Uuid
  pub execution_command : Text
  pub created_at : Moment
  pub expires_at : Moment
  pub status : PendingConfirmationStatus

unfoldable pub Task-discrete : Discrete Task
Task-discrete = hlevel ℕ_discrete

unfoldable pub Reminder-discrete : Discrete Reminder
Reminder-discrete = hlevel ℕ_discrete

abbrev pub is_pending : ReminderStatus → Bool
is_pending ReminderStatus.pending = true
is_pending _ = false

abbrev pub is_sent : ReminderStatus → Bool
is_sent ReminderStatus.sent = true
is_sent _ = false

-- `a == b` on optional UUIDs; in SQL the comparison with `None` is `IS NULL`.
abbrev pub same_user : Option Uuid → Option Uuid → Bool
same_user none none = true
same_user none (some b) = false
same_user (some a) none = false
same_user (some a) (some b) = a == b
