-- ===== src/ActionExecutor/Command.antt =====
-- services/execution_command.py and services/execution_result.py, and the decision that an
-- execution needs (guardrails/safety_policy.py), without the texts.
use personal_deadline_manage.Common.{Bool, true, false, Option, none}
use personal_deadline_manage.Model.{Uuid, Text, Task, Reminder}
use personal_deadline_manage.Store.{
  Error, task_not_found, reminder_not_found, invalid_task, invalid_reminder, naive_datetime,
  value_error,
}
use personal_deadline_manage.Guardrails.{ActionType, ValidatedAction}
use personal_deadline_manage.Guardrails.Decision.{DecisionStatus}
use personal_deadline_manage.Workload.{WorkloadAnalysisResult, ReschedulingResult}
use personal_deadline_manage.Parameters.{Parameters}

pub record DecisionResult : Type 0 where
  pub status : DecisionStatus
  pub action : ValidatedAction Parameters

pub record ExecutionCommand : Type 0 where
  pub action_type : ActionType
  pub resource_id : Option Uuid
  pub parameters : Parameters

unfoldable pub from_decision : DecisionResult → ExecutionCommand
from_decision decision = record {
  action_type = decision.action.action_type;
  resource_id = decision.action.resource_id;
  parameters = decision.action.parameters;
}

pub data ExecutionStatus : Type 0 where
  executed not_executable execution_failed : ExecutionStatus

pub data ExecutionErrorCode : Type 0 where
  not_found invalid_input infrastructure : ExecutionErrorCode

-- The analysis that a result carries.
pub data Payload : Type 0 where
  workload : WorkloadAnalysisResult → Payload
  rescheduling : ReschedulingResult → Payload

pub record ExecutionResult : Type 0 where
  pub status : ExecutionStatus
  pub action_type : ActionType
  pub resource_id : Option Uuid
  pub error_code : Option ExecutionErrorCode
  pub result_id : Option Uuid
  pub result_name : Option Text
  pub result_payload : Option Payload

-- NaiveDateTimeError is a ValueError; OverflowError, TypeError and KeyError are not.
unfoldable pub error_code_for : Error → ExecutionErrorCode
error_code_for (task_not_found k) = ExecutionErrorCode.not_found
error_code_for (reminder_not_found k) = ExecutionErrorCode.not_found
error_code_for invalid_task = ExecutionErrorCode.invalid_input
error_code_for invalid_reminder = ExecutionErrorCode.invalid_input
error_code_for naive_datetime = ExecutionErrorCode.invalid_input
error_code_for value_error = ExecutionErrorCode.invalid_input
error_code_for _ = ExecutionErrorCode.infrastructure

-- What a use case returns.
pub data Entity : Type 0 where
  nothing : Entity
  task : Task → Entity
  reminder : Reminder → Entity
  analysis : Payload → Entity

-- The result without an outcome.
abbrev pub result : ExecutionStatus → ExecutionCommand → ExecutionResult
result status command = record {
  status = status;
  action_type = command.action_type;
  resource_id = command.resource_id;
  error_code = none;
  result_id = none;
  result_name = none;
  result_payload = none;
}

abbrev pub is_authorized : DecisionStatus → Bool
is_authorized DecisionStatus.authorized = true
is_authorized _ = false
