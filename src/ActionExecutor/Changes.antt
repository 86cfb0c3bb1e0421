-- ===== src/ActionExecutor/Changes.antt =====
-- `_dispatch` of services/action_executor.py. `fresh` is the UUID of a new row and `now` the time
-- that the call reads.
use personal_deadline_manage.Common.{Option, none, some, ltb}
use personal_deadline_manage.Common.Int.{ℤ}
use personal_deadline_manage.Model.{Uuid, Text, Moment, Task, TaskPriority, TaskStatus, Column}
use personal_deadline_manage.Store.{
  Result, ok, err, Error, database_error, invalid_task, Action, pure, raise, raise_if, statement,
  select, transact, ◌>>◌,
}
use personal_deadline_manage.TaskService
use personal_deadline_manage.TaskService.{Field, unset, given, not_positive, is_past}
use personal_deadline_manage.TaskModule
use personal_deadline_manage.Parameters.{Json}
use personal_deadline_manage.Parameters.Values.{duration_of}

abbrev pub from_result : {A : Type 0} → Result A → Action A
from_result (ok a) = pure a
from_result (err e) = raise e

abbrev pub check_duration : Result (Option ℤ) → Action (Unit {0})
check_duration (ok d) = raise_if (not_positive d) invalid_task
check_duration (err e) = raise e

-- The flush of a row with a value that the database refuses.
unfoldable pub refused : {A : Type 0} → Action A
refused = statement (λ db. (err database_error, db))

unfoldable pub create_refused : Moment → Moment → Result (Option ℤ) → Action Task
unfolding refused
create_refused now deadline duration =
    transact (do raise_if (ltb deadline now) invalid_task; check_duration duration; refused)

abbrev pub create_with :
    Uuid
    → Moment
    → Moment
    → Option Text
    → Option (Option Text)
    → Option (Column TaskPriority)
    → Result (Option ℤ)
    → Action Task
create_with fresh now deadline (some name) (some description) (some priority) (ok duration) =
    TaskModule.create_task fresh now name description deadline priority duration
create_with fresh now deadline name description priority duration =
    create_refused now deadline duration

-- `None` as an id finds no row; the id that the error's text names is left out.
unfoldable pub no_row : {A : Type 0} → Error → Action A
no_row e = transact (do select (λ db. tt); raise e)

abbrev pub field_of : Option Json → Result (Field (Option ℤ))
field_of none = ok unset
field_of (some v) = elim (duration_of v) [ ok d ↦ ok (given d) | err e ↦ err e ]

abbrev pub check_field : Result (Field (Option ℤ)) → Action (Unit {0})
check_field (ok d) = raise_if (TaskService.bad_duration d) invalid_task
check_field (err e) = raise e

unfoldable pub update_refused :
    Moment → Uuid → Option Moment → Result (Field (Option ℤ)) → Action Task
unfolding refused TaskService.get_task
update_refused now k deadline duration = transact (do
  TaskService.get_task k
  raise_if (is_past now deadline) invalid_task
  check_field duration
  refused)

abbrev pub update_texts :
    Moment
    → Uuid
    → Option Moment
    → Result (Field (Option ℤ))
    → Option (Option Text)
    → Option (Option Text)
    → Option (Option (Column TaskPriority))
    → Option (Option (Column TaskStatus))
    → Action Task
update_texts now k deadline (ok duration) (some name) (some description) (some priority)
      (some status) =
    TaskModule.update_task now k (record {
      task_name = name;
      description = given description;
      deadline = deadline;
      priority = priority;
      status = status;
      duration_minutes = duration;
    })
update_texts now k deadline duration name description priority status =
    update_refused now k deadline duration
