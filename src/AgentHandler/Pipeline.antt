-- ===== src/AgentHandler/Pipeline.antt =====
-- `agent_chat`, `_process` and `_handle_confirmation` of handlers/agent_handler.py, and the session
-- that dependencies.py opens for the request and closes after it.
use personal_deadline_manage.Common.{true, Option, none, some, if◌then◌else◌}
use personal_deadline_manage.Model.{Uuid, PendingConfirmation}
use personal_deadline_manage.Store.{
  Result, ok, err, Session, Action, pure, raise, or_raise, rollback, key_error, value_error,
  database_error, ◌>>=◌, ◌>>◌,
}
use personal_deadline_manage.Store.ConfirmationRepository
use personal_deadline_manage.PendingConfirmationModule
use personal_deadline_manage.PendingConfirmationModule.{ConfirmOutcome, ConfirmResult}
use personal_deadline_manage.Guardrails.{ActionProposal, ValidatedAction}
use personal_deadline_manage.Guardrails.Decision.{DecisionStatus, decide}
use personal_deadline_manage.Guardrails.Resolver.{Resolution, clarification, resolved, resolve}
use personal_deadline_manage.Parameters.{Parameters}
use personal_deadline_manage.AgentInterpreter.{ResponseType, AgentResponse, to_agent_response}
use personal_deadline_manage.ActionValidator.{validate}
use personal_deadline_manage.LanguageModel.{generate}
use personal_deadline_manage.AgentResponseGenerator.{Reply, own_message, generate_response}
use personal_deadline_manage.ActionExecutor.Changes.{from_result}
use personal_deadline_manage.ActionExecutor.Command.{
  DecisionResult, ExecutionCommand, ExecutionResult, from_decision,
}
use personal_deadline_manage.ActionExecutor.Execute.{execute, decision_for}
use personal_deadline_manage.AgentHandler.Answers.{
  AgentChatStatus, AgentChatRequest, AgentChatResponse, answer, Settings, Outside, Reads,
  interpreter_status, validation_status, agent_status_for, is_narrated,
}

module _ (x : Outside) (settings : Settings) (reads : Reads) (request : AgentChatRequest) where
  -- The generator may raise; the text that it returns is left out.
  unfoldable pub narrate : ExecutionResult → Action Reply
  unfolding generate_response generate
  narrate r =
      if is_narrated r.status r.action_type
      then from_result (generate_response true (generate (x.wording r request.message)) r)
      else pure own_message

  unfoldable pub run_command :
      DecisionResult → ExecutionCommand → Option Uuid → Action AgentChatResponse
  unfolding execute narrate agent_status_for
  run_command decision command confirmation_id = do
    r ←
        execute x.fromisoformat x.driver_text settings.daily_working_minutes reads.fresh
          reads.execute_at decision command
    narrate r
    pure (record {
      status = agent_status_for r;
      execution_result = some r;
      confirmation_id = confirmation_id;
    })

  -- The id is loaded again, since the commit has expired the row.
  unfoldable pub ask_confirmation : DecisionResult → Action AgentChatResponse
  unfolding from_decision PendingConfirmationModule.create ConfirmationRepository.get_by_id
  ask_confirmation decision = do
    created ←
        PendingConfirmationModule.create reads.fresh reads.create_at request.user_id
          (x.dump (from_decision decision)) settings.pending_confirmation_ttl_seconds
    found ← ConfirmationRepository.get_by_id none created.id
    confirmation ← or_raise found database_error
    pure (record {
      status = AgentChatStatus.confirmation_required;
      execution_result = none;
      confirmation_id = some confirmation.id;
    })

  unfoldable pub branch : DecisionResult → DecisionStatus → Action AgentChatResponse
  unfolding run_command ask_confirmation from_decision
  branch decision DecisionStatus.authorized = run_command decision (from_decision decision) none
  branch decision DecisionStatus.confirmation_required = ask_confirmation decision
  branch decision DecisionStatus.denied = pure (answer AgentChatStatus.denied)
  branch decision DecisionStatus.not_configured = pure (answer AgentChatStatus.not_configured)

  -- `AuthorizationContext(actor_id=payload.user_id)`, if the request names a user.
  abbrev pub decision_on : ValidatedAction Parameters → DecisionResult
  decision_on action = record {
    status = decide settings.authorization action.action_type request.user_id;
    action = action;
  }

  unfoldable pub after_resolution : Resolution Parameters → Action AgentChatResponse
  unfolding branch decide
  after_resolution clarification = pure (answer AgentChatStatus.clarification_required)
  after_resolution (resolved action) = branch (decision_on action) (decision_on action).status

  unfoldable pub after_validation :
      ActionProposal Parameters → Option AgentChatStatus → Action AgentChatResponse
  unfolding resolve after_resolution
  after_validation proposal (some status) = pure (answer status)
  after_validation proposal none = do
    resolution ← resolve x.ilike proposal
    after_resolution resolution

  unfoldable pub by_proposal :
      ResponseType → Option (ActionProposal Parameters) → Action AgentChatResponse
  unfolding validate after_validation
  by_proposal type none = do
    status ← or_raise (interpreter_status type) key_error
    pure (answer status)
  by_proposal type (some proposal) = do
    validation ← from_result (validate x.fromisoformat proposal)
    after_validation proposal (validation_status validation)

  -- CONFIRMED: the stored command runs as it is; its text is loaded again, since the commit has
  -- expired the row.
  unfoldable pub run_stored : Uuid → Option PendingConfirmation → Action AgentChatResponse
  unfolding ConfirmationRepository.get_by_id run_command decision_for
  run_stored k none = raise database_error
  run_stored k (some c) = do
    found ← ConfirmationRepository.get_by_id none c.id
    loaded ← or_raise found database_error
    command ← or_raise (x.load loaded.execution_command) value_error
    run_command (decision_for command) command (some k)

  abbrev pub answer_to : Uuid → AgentChatStatus → AgentChatResponse
  answer_to k status = record (answer status) { confirmation_id = some k }

  unfoldable pub by_verdict :
      Uuid → ConfirmOutcome → Option PendingConfirmation → Action AgentChatResponse
  unfolding run_stored
  by_verdict k ConfirmOutcome.not_found c = pure (answer AgentChatStatus.clarification_required)
  by_verdict k ConfirmOutcome.already_confirmed c =
      pure (answer_to k AgentChatStatus.clarification_required)
  by_verdict k ConfirmOutcome.expired c = pure (answer_to k AgentChatStatus.expired)
  by_verdict k ConfirmOutcome.cancelled c =
      pure (answer_to k AgentChatStatus.clarification_required)
  by_verdict k ConfirmOutcome.confirmed c = run_stored k c

  unfoldable pub confirm_pending : Option PendingConfirmation → Uuid → Action AgentChatResponse
  unfolding PendingConfirmationModule.confirm by_verdict
  confirm_pending held k = do
    verdict ← PendingConfirmationModule.confirm held reads.confirm_at k request.user_id
    by_verdict k verdict.outcome verdict.confirmation

  -- The session still holds `latest`, with the status that the UPDATE leaves in it.
  abbrev pub held_latest : PendingConfirmation → PendingConfirmation
  held_latest latest = record latest { status = x.synchronized reads.confirm_at latest }

  unfoldable pub confirm_latest : Option PendingConfirmation → Action AgentChatResponse
  unfolding confirm_pending
  confirm_latest none = pure (answer AgentChatStatus.clarification_required)
  confirm_latest (some latest) = confirm_pending (some (held_latest latest)) latest.id

  unfoldable pub handle_confirmation : Option Uuid → Action AgentChatResponse
  unfolding confirm_pending confirm_latest PendingConfirmationModule.get_latest_pending
  handle_confirmation (some k) = confirm_pending none k
  handle_confirmation none = do
    latest ← PendingConfirmationModule.get_latest_pending request.user_id
    confirm_latest latest

  unfoldable pub by_response :
      ResponseType → Option (ActionProposal Parameters) → Option Uuid → Action AgentChatResponse
  unfolding handle_confirmation by_proposal
  by_response ResponseType.confirmation proposal k = handle_confirmation k
  by_response type proposal k = by_proposal type proposal

  abbrev pub respond : AgentResponse → Action AgentChatResponse
  respond r = by_response r.response_type r.proposal r.confirmation_id

  unfoldable pub process : Action AgentChatResponse
  unfolding PendingConfirmationModule.cleanup_expired to_agent_response by_response generate
  process = do
    PendingConfirmationModule.cleanup_expired reads.cleanup_at
    output ← from_result (generate (x.interpretation request.message))
    respond (to_agent_response x.parse_uuid output)

  -- `except Exception`
  abbrev pub or_apologize : Result AgentChatResponse → AgentChatResponse
  or_apologize (ok r) = r
  or_apologize (err e) = answer AgentChatStatus.error

  -- The session is closed after the answer, which drops what is not committed.
  unfoldable pub agent_chat : Session → AgentChatResponse × Session
  unfolding process rollback
  agent_chat s = let (r, s') = process s in (or_apologize r, rollback s')
