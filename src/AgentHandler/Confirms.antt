-- ===== src/AgentHandler/Confirms.antt =====
-- A request as a whole: confirmations, and the session around the pipeline.
use personal_deadline_manage.Common.{arith, ◌≡◌, refl, Option, none, some}
use personal_deadline_manage.Model.{Uuid, Text, PendingConfirmation}
use personal_deadline_manage.Store.{Db, Session, Result, ok, err, rollback, ◌>>=◌}
use personal_deadline_manage.Store.Keeps.{
  Keeps, Holds, Keeps-pure, Keeps-raise, Keeps-bind, keeps_rules,
}
use personal_deadline_manage.Store.ConfirmationRepository
use personal_deadline_manage.PendingConfirmationModule
use personal_deadline_manage.PendingConfirmationModule.{ConfirmOutcome}
use personal_deadline_manage.PendingConfirmationModule.Invariant.{
  confirm-Keeps, cleanup_expired-Keeps,
}
use personal_deadline_manage.Guardrails.{ActionProposal}
use personal_deadline_manage.Guardrails.Decision.{permitted}
use personal_deadline_manage.Parameters.{Parameters}
use personal_deadline_manage.AgentInterpreter.{
  InterpretationOutput, InterpretationResponseType, ResponseType, to_agent_response,
}
use personal_deadline_manage.AgentInterpreter.Proposes.{Answered, to_agent_response-AnsweredBy}
use personal_deadline_manage.ActionExecutor.Command.{ExecutionCommand}
use personal_deadline_manage.ActionExecutor.Execute.{decision_for}
use personal_deadline_manage.LanguageModel.{generate}
use personal_deadline_manage.ActionExecutor.Changes.{from_result}
use personal_deadline_manage.AgentHandler.Answers.{AgentChatRequest, Settings, Outside, Reads}
use personal_deadline_manage.AgentHandler.Pipeline.{
  run_stored, by_verdict, confirm_pending, confirm_latest, handle_confirmation, by_response,
  respond, process, agent_chat,
}
use personal_deadline_manage.AgentHandler.Keeps.{
  Requests, Confirms, Writes-weaken, run_command-Keeps, by_proposal-Keeps,
}

is_confirmation :
    (parse_uuid : Text → Option Uuid) (output : InterpretationOutput) (type : ResponseType)
    (p : Option (ActionProposal Parameters)) (k : Option Uuid)
    → Answered parse_uuid output type p k
    → type ≡ ResponseType.confirmation
    → output.response_type ≡ InterpretationResponseType.confirmation
is_confirmation parse_uuid output ResponseType.confirmation none k a h = a
is_confirmation parse_uuid output ResponseType.confirmation (some p) k a h = absurd a
is_confirmation parse_uuid output ResponseType.action_proposed p k a h = absurd (cc)
is_confirmation parse_uuid output ResponseType.clarification_required p k a h = absurd (cc)
is_confirmation parse_uuid output ResponseType.confirmation_required p k a h = absurd (cc)
is_confirmation parse_uuid output ResponseType.rejected p k a h = absurd (cc)
is_confirmation parse_uuid output ResponseType.conversation p k a h = absurd (cc)

given_by_generate : {A : Type 0} (r : Result A) (a : A) → generate r ≡ ok a → r ≡ ok a
unfolding generate
given_by_generate (ok b) a h = h
given_by_generate (err e) a h = absurd (ground arith)

module _ (x : Outside) (settings : Settings) (reads : Reads) (request : AgentChatRequest)
    (P : Db → Type 0) where
  module _ (c : Confirms P) where
    run_stored-Keeps :
        (k : Uuid) (found : Option PendingConfirmation)
        → Keeps P (run_stored x settings reads request k found)
    unfolding run_stored ConfirmationRepository.get_by_id
    run_stored-Keeps k none = Keeps-raise P _
    run_stored-Keeps k (some f) =
        let runs = λ (command : ExecutionCommand).
          run_command-Keeps x settings reads request P (decision_for command) command (some k)
            (Writes-weaken P _ c.writes) in
        search (keeps_rules, runs) depth 8

    by_verdict-Keeps :
        (k : Uuid) (outcome : ConfirmOutcome) (found : Option PendingConfirmation)
        → Keeps P (by_verdict x settings reads request k outcome found)
    unfolding by_verdict
    by_verdict-Keeps k ConfirmOutcome.confirmed found = run_stored-Keeps k found
    by_verdict-Keeps k ConfirmOutcome.already_confirmed found = Keeps-pure P _
    by_verdict-Keeps k ConfirmOutcome.expired found = Keeps-pure P _
    by_verdict-Keeps k ConfirmOutcome.cancelled found = Keeps-pure P _
    by_verdict-Keeps k ConfirmOutcome.not_found found = Keeps-pure P _

    confirm_pending-Keeps :
        (held : Option PendingConfirmation) (k : Uuid)
        → Keeps P (confirm_pending x settings reads request held k)
    unfolding confirm_pending
    confirm_pending-Keeps held k =
        let confirms =
          confirm-Keeps P held reads.confirm_at k request.user_id
            (c.win k request.user_id reads.confirm_at) (λ h at_hand still. c.save h.id)
            (λ (before : Db) d p here still. c.save d.id) in
        search (keeps_rules, confirms, by_verdict-Keeps) depth 6

    confirm_latest-Keeps :
        (found : Option PendingConfirmation)
        → Keeps P (confirm_latest x settings reads request found)
    unfolding confirm_latest
    confirm_latest-Keeps none = Keeps-pure P _
    confirm_latest-Keeps (some latest) = confirm_pending-Keeps (some _) latest.id

    handle_confirmation-Keeps :
        (k : Option Uuid) → Keeps P (handle_confirmation x settings reads request k)
    unfolding handle_confirmation PendingConfirmationModule.get_latest_pending
        ConfirmationRepository.find_latest_pending_by_user
    handle_confirmation-Keeps (some k) = confirm_pending-Keeps none k
    handle_confirmation-Keeps none = search (keeps_rules, confirm_latest-Keeps) depth 6

  module _ (r : Requests P (permitted settings.authorization request.user_id)) where
    by_response-Keeps :
        (type : ResponseType) (p : Option (ActionProposal Parameters)) (k : Option Uuid)
        → (type ≡ ResponseType.confirmation → Confirms P)
        → Keeps P (by_response x settings reads request type p k)
    unfolding by_response
    by_response-Keeps ResponseType.confirmation p k c = handle_confirmation-Keeps (c refl) k
    by_response-Keeps ResponseType.action_proposed p k c =
        by_proposal-Keeps x settings reads request P r ResponseType.action_proposed p
    by_response-Keeps ResponseType.clarification_required p k c =
        by_proposal-Keeps x settings reads request P r ResponseType.clarification_required p
    by_response-Keeps ResponseType.confirmation_required p k c =
        by_proposal-Keeps x settings reads request P r ResponseType.confirmation_required p
    by_response-Keeps ResponseType.rejected p k c =
        by_proposal-Keeps x settings reads request P r ResponseType.rejected p
    by_response-Keeps ResponseType.conversation p k c =
        by_proposal-Keeps x settings reads request P r ResponseType.conversation p

    interpreted-Keeps :
        (output : Result InterpretationOutput)
        → ((o : InterpretationOutput)
            → output ≡ ok o
            → o.response_type ≡ InterpretationResponseType.confirmation
            → Confirms P)
        → Keeps P (
            from_result output >>= λ o.
            respond x settings reads request (to_agent_response x.parse_uuid o))
    interpreted-Keeps (err e) c = Keeps-raise P e
    interpreted-Keeps (ok o) c =
        let response = to_agent_response x.parse_uuid o in
        by_response-Keeps response.response_type response.proposal response.confirmation_id (λ h.
          c o refl (
            is_confirmation x.parse_uuid o response.response_type response.proposal
              response.confirmation_id (to_agent_response-AnsweredBy x.parse_uuid o) h))

    -- A message that is no confirmation may only run what `Requests` keeps.
    pub agent_chat-Holds :
        ((o : InterpretationOutput)
          → x.interpretation request.message ≡ ok o
          → o.response_type ≡ InterpretationResponseType.confirmation
          → Confirms P)
        → (s : Session) → Holds P s
        → Holds P (agent_chat x settings reads request s).1
    unfolding agent_chat process rollback
    agent_chat-Holds c s h =
        let cleans = cleanup_expired-Keeps P reads.cleanup_at (r.expire reads.cleanup_at) in
        let answers =
          interpreted-Keeps (generate (x.interpretation request.message))
            (λ o is. c o (given_by_generate (x.interpretation request.message) o is)) in
        let after = (Keeps-bind P _ (λ _. _) cleans (λ _. answers)).at s h in
        record { committed = after.committed; working = after.committed; world = after.world }
