-- ===== src/ActionValidator.antt =====
-- services/action_validator.py, without the messages.
pub mod Accepts
use personal_deadline_manage.Common.{
  Bool, true, false, ◌&&◌, not, Option, none, some, List, [], ◌∷◌, ltb, if◌then◌else◌,
}
use personal_deadline_manage.Model.{Text, Moment}
use personal_deadline_manage.Store.{Result, ok, err, value_error, naive_datetime, type_error, Error}
use personal_deadline_manage.DateRange.{DateRangeExpression}
use personal_deadline_manage.Guardrails.{
  ActionType, ResourceReference, by_id, by_phrase, ActionProposal,
}
use personal_deadline_manage.Parameters.{
  Json, null, Name, task_name, deadline, remind_at, date_range_expression, explicit_start,
  explicit_end, Parameters, get_or_null, has_key, expression_of, Parsed, parse_iso_datetime,
}

pub data ValidationStatus : Type 0 where
  valid clarification_required rejected : ValidationStatus

abbrev pub needs_no_resource : ActionType → Bool
needs_no_resource ActionType.create_task = true
needs_no_resource ActionType.analyze_workload = true
needs_no_resource ActionType.suggest_rescheduling = true
needs_no_resource _ = false

abbrev pub has_usable_reference : ResourceReference → Bool
has_usable_reference (by_id k phrase) = true
has_usable_reference (by_phrase []) = false
has_usable_reference (by_phrase (c ∷ cs)) = true

-- The checks on the resource: one is given exactly where it is needed, and it is usable.
abbrev pub resource_fits : Bool → Option ResourceReference → Bool
resource_fits true none = true
resource_fits true (some ref) = false
resource_fits false none = false
resource_fits false (some ref) = has_usable_reference ref

-- No required parameter is missing, and an update changes something.
abbrev pub has_required : ActionType → Parameters → Bool
has_required ActionType.create_task ps = has_key task_name ps && has_key deadline ps
has_required ActionType.create_reminder ps = has_key remind_at ps
has_required ActionType.analyze_workload ps = has_key date_range_expression ps
has_required ActionType.suggest_rescheduling ps = has_key date_range_expression ps
has_required ActionType.update_task [] = false
has_required ActionType.update_reminder [] = false
has_required _ ps = true

abbrev pub is_analysis : ActionType → Bool
is_analysis ActionType.analyze_workload = true
is_analysis ActionType.suggest_rescheduling = true
is_analysis _ = false

-- `except (ValueError, TypeError)`: NaiveDateTimeError is a ValueError.
abbrev pub is_caught : Error → Bool
is_caught value_error = true
is_caught naive_datetime = true
is_caught type_error = true
is_caught _ = false

abbrev pub after_error : Error → Result ValidationStatus
after_error e = if is_caught e then ok ValidationStatus.clarification_required else err e

abbrev pub in_order : Result Moment → Result Moment → Result ValidationStatus
in_order (err e) end = after_error e
in_order (ok start) (err e) = after_error e
in_order (ok start) (ok end) =
    if ltb end start then ok ValidationStatus.clarification_required else ok ValidationStatus.valid

abbrev pub is_null : Json → Bool
is_null null = true
is_null _ = false

module _ (fromisoformat : Text → Parsed) where
  unfoldable pub validate_bounds : Json → Json → Result ValidationStatus
  unfolding parse_iso_datetime
  validate_bounds start end =
      let ordered =
        in_order (parse_iso_datetime fromisoformat start) (parse_iso_datetime fromisoformat end) in
      if is_null start
      then ok ValidationStatus.clarification_required
      else if is_null end
      then ok ValidationStatus.clarification_required
      else ordered

  abbrev pub validate_expression : Parameters → Option DateRangeExpression → Result ValidationStatus
  validate_expression ps none = ok ValidationStatus.clarification_required
  validate_expression ps (some DateRangeExpression.explicit_range) =
      validate_bounds (get_or_null explicit_start ps) (get_or_null explicit_end ps)
  validate_expression ps (some e) = ok ValidationStatus.valid

  unfoldable pub validate_analyze_workload : Parameters → Result ValidationStatus
  unfolding expression_of validate_bounds
  validate_analyze_workload ps =
      validate_expression ps (expression_of (get_or_null date_range_expression ps))

  -- An error is an exception that `validate` lets through.
  unfoldable pub validate : ActionProposal Parameters → Result ValidationStatus
  unfolding validate_analyze_workload
  validate p =
      let analysis = validate_analyze_workload p.parameters in
      if not (resource_fits (needs_no_resource p.action_type) p.resource)
      then ok ValidationStatus.clarification_required
      else if not (has_required p.action_type p.parameters)
      then ok ValidationStatus.clarification_required
      else if is_analysis p.action_type
      then analysis
      else ok ValidationStatus.valid
