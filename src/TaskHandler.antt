-- ===== src/TaskHandler.antt =====
-- schemas/task.py and handlers/task_handler.py, and what main.py answers for an exception. The body
-- of a request is as pydantic has read it by its types; texts of messages are left out.
pub mod Patches
use personal_deadline_manage.Common.{
  ℕ, Bool, true, false, Option, none, some, List, [], ◌∷◌, map, if◌then◌else◌,
}
use personal_deadline_manage.Common.Int.{ℤ, pos, ltb_ℤ}
use personal_deadline_manage.Model.{
  Uuid, Text, Moment, Task, TaskPriority, TaskStatus, Column, known,
}
use personal_deadline_manage.Store.{
  Result, ok, err, Error, task_not_found, reminder_not_found, invalid_task, invalid_reminder,
  naive_datetime, value_error, database_error, Session, Action, pure, or_raise, ◌>>=◌, ◌>>◌,
}
use personal_deadline_manage.Store.TaskRepository
use personal_deadline_manage.TaskService.{Field, unset, given, TaskPatch}
use personal_deadline_manage.TaskModule
use personal_deadline_manage.Parameters.{
  Json, null, composite, text, integer, Parsed, require_aware_utc,
}

pub record TaskCreateRequest : Type 0 where
  pub task_name : Text
  pub description : Option Text
  pub deadline : Parsed
  pub priority : TaskPriority
  pub duration_minutes : Option ℤ

-- `unset` is a field that is not in `model_fields_set`; two fields are of type `object`.
pub record TaskUpdateRequest : Type 0 where
  pub task_name : Field (Option Text)
  pub description : Field Json
  pub deadline : Field (Option Parsed)
  pub priority : Field (Option TaskPriority)
  pub status : Field (Option TaskStatus)
  pub duration_minutes : Field Json

-- The validators. An OverflowError is none of pydantic's errors, and goes through.
unfoldable pub deadline_must_be_aware : Field (Option Parsed) → Result (Option Moment)
deadline_must_be_aware unset = ok none
deadline_must_be_aware (given none) = ok none
deadline_must_be_aware (given (some p)) = elim (require_aware_utc p) [
  | ok t ↦ ok (some t)
  | err e ↦ err e
]

unfoldable pub duration_must_be_positive : Option ℤ → Result (Option ℤ)
duration_must_be_positive none = ok none
duration_must_be_positive (some d) = if ltb_ℤ (pos 0) d then ok (some d) else err value_error

unfoldable pub description_must_be_str_or_none : Field Json → Result (Field (Option Text))
description_must_be_str_or_none unset = ok unset
description_must_be_str_or_none (given null) = ok (given none)
description_must_be_str_or_none (given (text t)) = ok (given (some t))
description_must_be_str_or_none (given v) = err value_error

unfoldable pub update_duration_must_be_positive_or_none : Field Json → Result (Field (Option ℤ))
update_duration_must_be_positive_or_none unset = ok unset
update_duration_must_be_positive_or_none (given null) = ok (given none)
update_duration_must_be_positive_or_none (given (integer d)) =
    if ltb_ℤ (pos 0) d then ok (given (some d)) else err value_error
update_duration_must_be_positive_or_none (given v) = err value_error

-- A given null of these fields is an argument `None`, as an omitted one is.
abbrev pub argument : {A : Type 0} → Field (Option A) → Option A
argument unset = none
argument (given v) = v

abbrev pub column_of : {E : Type 0} → Option E → Option (Column E)
column_of none = none
column_of (some e) = some (known e)

-- The keyword arguments of a request whose fields have these values.
abbrev pub patch_with :
    TaskUpdateRequest
    → Result (Option Moment)
    → Result (Field (Option Text))
    → Result (Field (Option ℤ))
    → Result TaskPatch
patch_with request (err e) description duration = err e
patch_with request (ok deadline) (err e) duration = err e
patch_with request (ok deadline) (ok description) (err e) = err e
patch_with request (ok deadline) (ok description) (ok duration) = ok (record {
  task_name = argument request.task_name;
  description = description;
  deadline = deadline;
  priority = column_of (argument request.priority);
  status = column_of (argument request.status);
  duration_minutes = duration;
})

unfoldable pub patch_of : TaskUpdateRequest → Result TaskPatch
unfolding deadline_must_be_aware description_must_be_str_or_none
    update_duration_must_be_positive_or_none
patch_of request =
    patch_with request (deadline_must_be_aware request.deadline)
      (description_must_be_str_or_none request.description)
      (update_duration_must_be_positive_or_none request.duration_minutes)

-- TaskResponseData has the columns of a task. The commit has expired the row, which is loaded again.
unfoldable pub from_domain : Task → Action Task
unfolding TaskRepository.get_by_id
from_domain t = do found ← TaskRepository.get_by_id t.id; or_raise found database_error

-- An answer: the status, and the data of a success.
pub record HttpResponse (A : Type 0) : Type 0 where
  pub status_code : ℕ
  pub data_given : Option A

-- The exception handlers of `create_app`.
unfoldable pub status_for : Error → ℕ
status_for (task_not_found k) = 404
status_for (reminder_not_found k) = 404
status_for invalid_reminder = 400
status_for invalid_task = 400
status_for _ = 500

-- RequestValidationError is answered with 400.
abbrev pub invalid_status : Error → ℕ
invalid_status value_error = 400
invalid_status naive_datetime = 400
invalid_status _ = 500

abbrev pub fails_with : {A : Type 0} → ℕ → HttpResponse A
fails_with code = record { status_code = code; data_given = none }

abbrev pub respond : {A : Type 0} → ℕ → Result A × Session → HttpResponse A × Session
respond code (ok a, s) = (record { status_code = code; data_given = some a }, s)
respond code (err e, s) = (fails_with (status_for e), s)

-- A request whose body is refused reaches no module.
abbrev pub validated :
    {A R : Type 0}
    → Result R
    → (R → Session → HttpResponse A × Session)
    → Session
    → HttpResponse A × Session
validated (err e) run s = (fails_with (invalid_status e), s)
validated (ok r) run s = run r s

module _ (fresh : Uuid) (now : Moment) where
  abbrev pub create_with :
      TaskCreateRequest → Moment → Option ℤ → Session → HttpResponse Task × Session
  create_with request deadline duration s = respond 201 (
      (TaskModule.create_task fresh now request.task_name request.description deadline
            (known request.priority) duration
          >>= from_domain)
        s)

  abbrev pub create_checked :
      TaskCreateRequest → Result Moment → Result (Option ℤ) → Session → HttpResponse Task × Session
  create_checked request deadline duration =
      validated deadline (λ t. validated duration (create_with request t))

  unfoldable pub create_task : TaskCreateRequest → Session → HttpResponse Task × Session
  unfolding TaskModule.create_task from_domain duration_must_be_positive status_for
  create_task request =
      create_checked request (require_aware_utc request.deadline)
        (duration_must_be_positive request.duration_minutes)

unfoldable pub get_task : Uuid → Session → HttpResponse Task × Session
unfolding TaskModule.get_task status_for
get_task k s = respond 200 (TaskModule.get_task k s)

unfoldable pub list_tasks : Session → HttpResponse (List Task) × Session
unfolding TaskModule.list_tasks status_for
list_tasks s = respond 200 (TaskModule.list_tasks s)

unfoldable pub update_task :
    Moment → Uuid → TaskUpdateRequest → Session → HttpResponse Task × Session
unfolding TaskModule.update_task from_domain patch_of status_for
update_task now k request =
    validated (patch_of request)
      (λ patch s. respond 200 ((TaskModule.update_task now k patch >>= from_domain) s))

unfoldable pub delete_task : Uuid → Session → HttpResponse (Unit {0}) × Session
unfolding TaskModule.delete_task status_for
delete_task k s = respond 204 (TaskModule.delete_task k s)
