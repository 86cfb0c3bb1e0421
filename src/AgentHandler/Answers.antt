-- ===== src/AgentHandler/Answers.antt =====
-- schemas/agent_chat.py and the status tables of handlers/agent_handler.py; the texts of messages
-- are left out.
use personal_deadline_manage.Common.{Bool, true, false, Option, none, some}
use personal_deadline_manage.Common.Int.{ℤ}
use personal_deadline_manage.Model.{
  Uuid, Text, Moment, PendingConfirmation, PendingConfirmationStatus,
}
use personal_deadline_manage.Store.{Result}
use personal_deadline_manage.Guardrails.{ActionType}
use personal_deadline_manage.Guardrails.Decision.{AuthorizationService}
use personal_deadline_manage.Parameters.{Json, Parsed}
use personal_deadline_manage.AgentInterpreter.{InterpretationOutput, ResponseType}
use personal_deadline_manage.ActionValidator.{ValidationStatus}
use personal_deadline_manage.ActionExecutor.Command.{
  ExecutionCommand, ExecutionStatus, ExecutionErrorCode, ExecutionResult,
}

pub data AgentChatStatus : Type 0 where
  executed confirmation_required denied not_configured clarification_required : AgentChatStatus
  rejected conversation error expired invalid_input : AgentChatStatus

pub record AgentChatRequest : Type 0 where
  pub message : Text
  pub user_id : Option Uuid

pub record AgentChatResponse : Type 0 where
  pub status : AgentChatStatus
  pub execution_result : Option ExecutionResult
  pub confirmation_id : Option Uuid

abbrev pub answer : AgentChatStatus → AgentChatResponse
answer status = record { status = status; execution_result = none; confirmation_id = none }

-- The settings that the pipeline reads (config.py).
pub record Settings : Type 0 where
  pub authorization : AuthorizationService
  pub daily_working_minutes : ℤ
  pub pending_confirmation_ttl_seconds : ℤ

-- What the code calls and does not define: the standard library's parsers, the database's match of
-- names and its text columns, pydantic's JSON of a command, the language model's two answers, and
-- the status that SQLAlchemy leaves in a loaded confirmation when the UPDATE of `mark_confirmed` has
-- run at a time (it does not read the row for it).
pub record Outside : Type 0 where
  pub fromisoformat : Text → Parsed
  pub parse_uuid : Text → Option Uuid
  pub ilike : Text → Text → Bool
  pub driver_text : Json → Option Text
  pub dump : ExecutionCommand → Text
  pub load : Text → Option ExecutionCommand
  pub interpretation : Text → Result InterpretationOutput
  pub wording : ExecutionResult → Text → Result Text
  pub synchronized : Moment → PendingConfirmation → PendingConfirmationStatus

-- The times that one request reads, in its order, and the id of the row that it may create.
pub record Reads : Type 0 where
  pub cleanup_at : Moment
  pub confirm_at : Moment
  pub create_at : Moment
  pub execute_at : Moment
  pub fresh : Uuid

-- `_INTERPRETER_STATUS_MAP`; `none` is KeyError.
abbrev pub interpreter_status : ResponseType → Option AgentChatStatus
interpreter_status ResponseType.clarification_required = some AgentChatStatus.clarification_required
interpreter_status ResponseType.rejected = some AgentChatStatus.rejected
interpreter_status ResponseType.conversation = some AgentChatStatus.conversation
interpreter_status _ = none

-- `_VALIDATION_STATUS_MAP`, for a status that is not VALID.
abbrev pub validation_status : ValidationStatus → Option AgentChatStatus
validation_status ValidationStatus.valid = none
validation_status ValidationStatus.clarification_required =
    some AgentChatStatus.clarification_required
validation_status ValidationStatus.rejected = some AgentChatStatus.rejected

abbrev pub by_error_code : Option ExecutionErrorCode → AgentChatStatus
by_error_code (some ExecutionErrorCode.invalid_input) = AgentChatStatus.invalid_input
by_error_code _ = AgentChatStatus.error

abbrev pub by_outcome : ExecutionStatus → Option ExecutionErrorCode → AgentChatStatus
by_outcome ExecutionStatus.executed code = AgentChatStatus.executed
by_outcome _ code = by_error_code code

unfoldable pub agent_status_for : ExecutionResult → AgentChatStatus
agent_status_for r = by_outcome r.status r.error_code

-- Whether the message is generated: only for an analysis of the workload that was executed.
abbrev pub is_narrated : ExecutionStatus → ActionType → Bool
is_narrated ExecutionStatus.executed ActionType.analyze_workload = true
is_narrated _ action = false
