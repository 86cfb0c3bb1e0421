-- ===== src/Parameters/Values.antt =====
-- The values of an action's parameters as the columns of the tables take them.
-- `driver_text` is what the database driver stores in a text column for a value that is neither a
-- text nor null, `none` where the database refuses it.
use personal_deadline_manage.Common.{Option, none, some, [], ◌∷◌, if◌then◌else◌}
use personal_deadline_manage.Common.Int.{ℤ}
use personal_deadline_manage.Model.{
  Text, TaskPriority, TaskStatus, ReminderStatus, Column, known, unknown,
}
use personal_deadline_manage.Store.{Result, ok, err, type_error}
use personal_deadline_manage.Parameters.{Json, null, text, integer, text_eq}

-- The values of the enums of models.py.
unfoldable pub priority_column : Text → Column TaskPriority
priority_column t =
    if text_eq t (76 ∷ 79 ∷ 87 ∷ [])
    then known TaskPriority.low
    else if text_eq t (77 ∷ 69 ∷ 68 ∷ 73 ∷ 85 ∷ 77 ∷ [])
    then known TaskPriority.medium
    else if text_eq t (72 ∷ 73 ∷ 71 ∷ 72 ∷ [])
    then known TaskPriority.high
    else unknown t

unfoldable pub status_column : Text → Column TaskStatus
status_column t =
    if text_eq t (84 ∷ 79 ∷ 68 ∷ 79 ∷ [])
    then known TaskStatus.todo
    else if text_eq t (73 ∷ 78 ∷ 95 ∷ 80 ∷ 82 ∷ 79 ∷ 71 ∷ 82 ∷ 69 ∷ 83 ∷ 83 ∷ [])
    then known TaskStatus.in_progress
    else if text_eq t (67 ∷ 79 ∷ 77 ∷ 80 ∷ 76 ∷ 69 ∷ 84 ∷ 69 ∷ 68 ∷ [])
    then known TaskStatus.completed
    else if text_eq t (67 ∷ 65 ∷ 78 ∷ 67 ∷ 69 ∷ 76 ∷ 76 ∷ 69 ∷ 68 ∷ [])
    then known TaskStatus.cancelled
    else unknown t

unfoldable pub reminder_column : Text → Column ReminderStatus
reminder_column t =
    if text_eq t (80 ∷ 69 ∷ 78 ∷ 68 ∷ 73 ∷ 78 ∷ 71 ∷ [])
    then known ReminderStatus.pending
    else if text_eq t (83 ∷ 69 ∷ 78 ∷ 84 ∷ [])
    then known ReminderStatus.sent
    else if text_eq t (67 ∷ 65 ∷ 78 ∷ 67 ∷ 69 ∷ 76 ∷ 76 ∷ 69 ∷ 68 ∷ [])
    then known ReminderStatus.cancelled
    else unknown t

-- A value that is no text equals none of the allowed statuses either.
unfoldable pub reminder_status : Json → Option (Column ReminderStatus)
unfolding reminder_column
reminder_status null = none
reminder_status (text t) = some (reminder_column t)
reminder_status _ = some (unknown [])

-- The comparison of a text or a composite value with 0 is a TypeError.
unfoldable pub duration_of : Json → Result (Option ℤ)
duration_of null = ok none
duration_of (integer d) = ok (some d)
duration_of _ = err type_error

abbrev pub map_column : {A B : Type 0} → (A → B) → Option A → Option B
map_column f none = none
map_column f (some a) = some (f a)

module _ (driver_text : Json → Option Text) where
  abbrev pub stored : Json → Option Text
  stored (text t) = some t
  stored v = driver_text v

  -- A column that is NOT NULL and has no default.
  unfoldable pub required_text : Json → Option Text
  required_text null = none
  required_text v = stored v

  unfoldable pub optional_text : Json → Option (Option Text)
  optional_text null = some none
  optional_text v = map_column (λ (t : Text). some t) (stored v)

  -- The column's default stands for null in an INSERT.
  unfoldable pub priority_or_default : Option Json → Option (Column TaskPriority)
  unfolding priority_column
  priority_or_default none = some (known TaskPriority.medium)
  priority_or_default (some null) = some (known TaskPriority.medium)
  priority_or_default (some v) = map_column priority_column (stored v)

  -- An argument of the service, where null leaves the column as it is.
  unfoldable pub change_of : {C : Type 0} → (Text → C) → Json → Option (Option C)
  change_of column null = some none
  change_of column v = map_column (λ (t : Text). some (column t)) (stored v)
