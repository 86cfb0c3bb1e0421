-- ===== src/ActionExecutor/Execute.antt =====
-- `ActionExecutor.execute` of services/action_executor.py, and `_decision_for` of
-- handlers/agent_handler.py, which makes the decision again from a stored command.
use personal_deadline_manage.Common.{ℕ, Bool, ◌==◌, not, Option, some, if◌then◌else◌}
use personal_deadline_manage.Common.Int.{ℤ}
use personal_deadline_manage.Model.{Uuid, Text, Moment}
use personal_deadline_manage.Store.{Result, ok, err, database_error, Action, pure, or_raise, ◌>>=◌}
use personal_deadline_manage.Store.TaskRepository
use personal_deadline_manage.Store.ReminderRepository
use personal_deadline_manage.Guardrails.{ActionType}
use personal_deadline_manage.Guardrails.Decision.{DecisionStatus}
use personal_deadline_manage.Parameters.{Json, Parsed}
use personal_deadline_manage.ActionExecutor.Command.{
  DecisionResult, ExecutionCommand, ExecutionStatus, ExecutionResult, error_code_for, Entity,
  nothing, task, reminder, analysis, result, is_authorized,
}
use personal_deadline_manage.ActionExecutor.Dispatch.{dispatch}

abbrev pub action_code : ActionType → ℕ
action_code ActionType.create_task = 0
action_code ActionType.update_task = 1
action_code ActionType.delete_task = 2
action_code ActionType.create_reminder = 3
action_code ActionType.update_reminder = 4
action_code ActionType.delete_reminder = 5
action_code ActionType.analyze_workload = 6
action_code ActionType.suggest_rescheduling = 7

abbrev pub same_action : ActionType → ActionType → Bool
same_action a b = action_code a == action_code b

unfoldable pub decision_for : ExecutionCommand → DecisionResult
decision_for c = record {
  status = DecisionStatus.authorized;
  action = record {
    action_type = c.action_type;
    resource_id = c.resource_id;
    parameters = c.parameters;
  };
}

-- `_executed`. The commit has expired the row, whose id and name are loaded again.
unfoldable pub executed : ExecutionCommand → Entity → Action ExecutionResult
unfolding TaskRepository.get_by_id ReminderRepository.get_by_id
executed c nothing = pure (result ExecutionStatus.executed c)
executed c (analysis found) =
    pure (record (result ExecutionStatus.executed c) { result_payload = some found })
executed c (task t) = do
  found ← TaskRepository.get_by_id t.id
  loaded ← or_raise found database_error
  pure (record (result ExecutionStatus.executed c) {
    result_id = some loaded.id;
    result_name = some loaded.task_name;
  })
executed c (reminder r) = do
  found ← ReminderRepository.get_by_id r.id
  loaded ← or_raise found database_error
  pure (record (result ExecutionStatus.executed c) { result_id = some loaded.id })

-- `except Exception`
unfoldable pub conclude : ExecutionCommand → Result Entity → Action ExecutionResult
unfolding executed error_code_for
conclude c (ok entity) = executed c entity
conclude c (err e) =
    pure
      (record (result ExecutionStatus.execution_failed c) { error_code = some (error_code_for e) })

module _ (fromisoformat : Text → Parsed) (driver_text : Json → Option Text) (daily : ℤ)
    (fresh : Uuid) (now : Moment) where
  unfoldable pub attempt : ExecutionCommand → Action ExecutionResult
  unfolding dispatch conclude
  attempt c s =
      let (r, s') = dispatch fromisoformat driver_text daily fresh now c s in conclude c r s'

  unfoldable pub execute : DecisionResult → ExecutionCommand → Action ExecutionResult
  unfolding attempt
  execute decision c =
      if not (is_authorized decision.status)
      then pure (result ExecutionStatus.not_executable c)
      else if not (same_action c.action_type decision.action.action_type)
      then pure (result ExecutionStatus.not_executable c)
      else attempt c
