-- ===== src/ActionExecutor/Dispatch.antt =====
-- `_dispatch` of services/action_executor.py. `fresh` is the UUID of a new row and `now` the time
-- that the call reads; `daily` is the budget of the workload service.
use personal_deadline_manage.Common.{Option, none, some, List, map}
use personal_deadline_manage.Common.Int.{ℤ, pos}
use personal_deadline_manage.Model.{Uuid, Text, Moment, Task}
use personal_deadline_manage.Store.{
  Result, ok, err, key_error, value_error, task_not_found, reminder_not_found, Action, pure,
  or_raise, ◌>>=◌, ◌>>◌,
}
use personal_deadline_manage.TaskModule
use personal_deadline_manage.ReminderModule
use personal_deadline_manage.WorkloadAnalysisService.{analyze, row_of}
use personal_deadline_manage.ReschedulingSuggestionService.{suggest_for_rows}
use personal_deadline_manage.DateRange.{DateRangeExpression, Range}
use personal_deadline_manage.DateRange
use personal_deadline_manage.Guardrails.{ActionType}
use personal_deadline_manage.Parameters.{
  Json, text, Name, Parameters, get, get_or_null, expression_named, Parsed, to_datetime,
  opt_datetime,
}
use personal_deadline_manage.Parameters.Values.{
  status_column, reminder_status, duration_of, required_text, optional_text, priority_or_default,
  priority_column, change_of,
}
use personal_deadline_manage.ActionExecutor.Command.{
  ExecutionCommand, Entity, nothing, task, reminder, analysis, workload, rescheduling,
}
use personal_deadline_manage.ActionExecutor.Changes.{
  from_result, create_with, no_row, field_of, update_texts,
}

-- `DateRangeExpression(expr_str) if isinstance(expr_str, str) else expr_str`: what is no text is
-- no expression, which only the resolver refuses.
abbrev pub named_expression : Json → Result (Option DateRangeExpression)
named_expression (text t) = elim (expression_named t) [
  | none ↦ err value_error
  | some e ↦ ok (some e)
]
named_expression v = ok none

abbrev pub resolve_range :
    Option DateRangeExpression → Option Moment → Option Moment → Moment → Result Range
resolve_range none start end now = err value_error
resolve_range (some e) start end now = DateRange.resolve e start end now

module _ (fromisoformat : Text → Parsed) (driver_text : Json → Option Text) (daily : ℤ)
    (fresh : Uuid) (now : Moment) where
  unfoldable pub create_task : Parameters → Action Entity
  unfolding to_datetime required_text optional_text priority_or_default duration_of
      TaskModule.create_task
  create_task ps = do
    name ← or_raise (get Name.task_name ps) key_error
    value ← or_raise (get Name.deadline ps) key_error
    deadline ← from_result (to_datetime fromisoformat value)
    created ←
        create_with fresh now deadline (required_text driver_text name)
          (optional_text driver_text (get_or_null Name.description ps))
          (priority_or_default driver_text (get Name.priority ps))
          (duration_of (get_or_null Name.duration_minutes ps))
    pure (task created)

  unfoldable pub update_row : Option Uuid → Option Moment → Parameters → Action Task
  unfolding change_of optional_text priority_column status_column duration_of no_row
      TaskModule.update_task
  update_row none deadline ps = no_row (task_not_found 0)
  update_row (some k) deadline ps =
      update_texts now k deadline (field_of (get Name.duration_minutes ps))
        (change_of driver_text (λ t. t) (get_or_null Name.task_name ps))
        (optional_text driver_text (get_or_null Name.description ps))
        (change_of driver_text priority_column (get_or_null Name.priority ps))
        (change_of driver_text status_column (get_or_null Name.status ps))

  unfoldable pub update_task : Option Uuid → Parameters → Action Entity
  unfolding opt_datetime update_row
  update_task k ps = do
    deadline ← from_result (opt_datetime fromisoformat (get_or_null Name.deadline ps))
    updated ← update_row k deadline ps
    pure (task updated)

  unfoldable pub delete_task : Option Uuid → Action Entity
  unfolding TaskModule.delete_task no_row
  delete_task none = no_row (task_not_found 0)
  delete_task (some k) = do TaskModule.delete_task k; pure nothing

  unfoldable pub remind : Option Uuid → Moment → Action Entity
  unfolding no_row ReminderModule.create_reminder
  remind none remind_at = no_row (task_not_found 0)
  remind (some k) remind_at = do
    created ← ReminderModule.create_reminder fresh now k remind_at
    pure (reminder created)

  unfoldable pub create_reminder : Option Uuid → Parameters → Action Entity
  unfolding to_datetime remind
  create_reminder k ps = do
    value ← or_raise (get Name.remind_at ps) key_error
    remind_at ← from_result (to_datetime fromisoformat value)
    remind k remind_at

  unfoldable pub change_reminder : Option Uuid → Option Moment → Parameters → Action Entity
  unfolding no_row reminder_status ReminderModule.update_reminder
  change_reminder none remind_at ps = no_row (reminder_not_found 0)
  change_reminder (some k) remind_at ps = do
    updated ←
        ReminderModule.update_reminder now k remind_at
          (reminder_status (get_or_null Name.status ps))
    pure (reminder updated)

  unfoldable pub update_reminder : Option Uuid → Parameters → Action Entity
  unfolding opt_datetime change_reminder
  update_reminder k ps = do
    remind_at ← from_result (opt_datetime fromisoformat (get_or_null Name.remind_at ps))
    change_reminder k remind_at ps

  unfoldable pub delete_reminder : Option Uuid → Action Entity
  unfolding ReminderModule.delete_reminder no_row
  delete_reminder none = no_row (reminder_not_found 0)
  delete_reminder (some k) = do ReminderModule.delete_reminder k; pure nothing

  -- The tasks in the range that the parameters name.
  unfoldable pub tasks_in_range : Parameters → Action (List Task)
  unfolding opt_datetime DateRange.resolve TaskModule.find_tasks_by_deadline_range expression_named
  tasks_in_range ps = do
    value ← or_raise (get Name.date_range_expression ps) key_error
    expression ← from_result (named_expression value)
    explicit_start ← from_result (opt_datetime fromisoformat (get_or_null Name.explicit_start ps))
    explicit_end ← from_result (opt_datetime fromisoformat (get_or_null Name.explicit_end ps))
    range ← from_result (resolve_range expression explicit_start explicit_end now)
    TaskModule.find_tasks_by_deadline_range range.0 range.1

  unfoldable pub analyze_workload : Parameters → Action Entity
  unfolding tasks_in_range analyze
  analyze_workload ps = do
    tasks ← tasks_in_range ps
    found ← from_result (analyze daily (map row_of tasks) none)
    pure (analysis (workload found))

  -- The suggestion service has its default budget and its candidate service has its own.
  unfoldable pub suggest_rescheduling : Parameters → Action Entity
  unfolding tasks_in_range suggest_for_rows
  suggest_rescheduling ps = do
    tasks ← tasks_in_range ps
    found ← from_result (suggest_for_rows (pos 480) (pos 480) tasks)
    pure (analysis (rescheduling found))

  unfoldable pub dispatch_by : ActionType → Option Uuid → Parameters → Action Entity
  unfolding create_task update_task delete_task create_reminder update_reminder delete_reminder
      analyze_workload suggest_rescheduling
  dispatch_by ActionType.create_task k ps = create_task ps
  dispatch_by ActionType.update_task k ps = update_task k ps
  dispatch_by ActionType.delete_task k ps = delete_task k
  dispatch_by ActionType.create_reminder k ps = create_reminder k ps
  dispatch_by ActionType.update_reminder k ps = update_reminder k ps
  dispatch_by ActionType.delete_reminder k ps = delete_reminder k
  dispatch_by ActionType.analyze_workload k ps = analyze_workload ps
  dispatch_by ActionType.suggest_rescheduling k ps = suggest_rescheduling ps

  unfoldable pub dispatch : ExecutionCommand → Action Entity
  unfolding dispatch_by
  dispatch c = dispatch_by c.action_type c.resource_id c.parameters
