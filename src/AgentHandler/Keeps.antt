-- ===== src/AgentHandler/Keeps.antt =====
-- What a request keeps of the tables, if the statements that it may run keep it.
use personal_deadline_manage.Common.{
  ◌≡◌, refl, sym, ap, ◌∙◌, Bool, true, false, Option, none, some, arith,
}
use personal_deadline_manage.Model.{Uuid, Text, Moment, PendingConfirmation}
use personal_deadline_manage.Store.{Db}
use personal_deadline_manage.Store.Keeps.{Keeps, Keeps-pure, keeps_rules}
use personal_deadline_manage.Store.ConfirmationRepository
use personal_deadline_manage.Store.ConfirmationRepository.{
  insert_confirmation, expire, win, save_expired,
}
use personal_deadline_manage.Store.TaskRepository
use personal_deadline_manage.Store.ReminderRepository
use personal_deadline_manage.PendingConfirmationModule.Invariant.{if-Keeps, create-Keeps}
use personal_deadline_manage.Guardrails.{
  ActionType, ActionProposal, ResourceReference, by_id, by_phrase,
}
use personal_deadline_manage.Guardrails.Decision.{
  DecisionStatus, decide-judgement, is_destructive, permitted, judgement,
}
use personal_deadline_manage.Guardrails.Resolver
use personal_deadline_manage.Guardrails.Resolver.{Resolution, clarification, resolved, Target}
use personal_deadline_manage.Parameters.{Parameters}
use personal_deadline_manage.AgentInterpreter.{ResponseType}
use personal_deadline_manage.ActionExecutor.Command.{
  DecisionResult, ExecutionCommand, from_decision, ExecutionResult,
}
use personal_deadline_manage.ActionExecutor.Keeps.{Writes, from_result-Keeps}
use personal_deadline_manage.ActionExecutor.Runs.{execute-Keeps}
use personal_deadline_manage.AgentHandler.Answers.{
  AgentChatStatus, AgentChatRequest, Settings, Outside, Reads, is_narrated,
}
use personal_deadline_manage.AgentHandler.Pipeline.{
  narrate, run_command, ask_confirmation, branch, after_resolution, after_validation, by_proposal,
}

-- The statements of a request that is no confirmation keep `P`; those that write an action or
-- store it run only for a user who is allowed.
pub record Requests (P : Db → Type 0) (allowed : Bool) : Type 0 where
  pub writes : allowed ≡ true → Writes P false
  pub insert :
      allowed ≡ true → (c : PendingConfirmation) (db : Db) → P db → P (insert_confirmation c db).1
  pub expire : (now : Moment) (db : Db) → P db → P (expire now db).1

-- Those of a confirmation keep it too.
pub record Confirms (P : Db → Type 0) : Type 0 where
  pub writes : Writes P true
  pub win :
      (k : Uuid) (user : Option Uuid) (now : Moment) (db : Db) → P db → P (win k user now db).1
  pub save : (k : Uuid) (db : Db) → P db → P (save_expired k db).1

pub Writes-weaken : (P : Db → Type 0) (b : Bool) → Writes P true → Writes P b
Writes-weaken P b w = record {
  insert_task = w.insert_task;
  update_task = w.update_task;
  insert_reminder = w.insert_reminder;
  update_reminder = w.update_reminder;
  delete_task = λ e. w.delete_task refl;
  delete_reminder = λ e. w.delete_reminder refl;
}

pub Writes-safe : (P : Db → Type 0) (b : Bool) → b ≡ false → Writes P false → Writes P b
Writes-safe P b safe w = rw safe w

judgement-authorized :
    (allowed destructive : Bool)
    → judgement allowed destructive ≡ DecisionStatus.authorized
    → (destructive ≡ false) × (allowed ≡ true)
judgement-authorized true false h = (refl, refl)
judgement-authorized true true h = absurd (ground arith)
judgement-authorized false destructive h = absurd (ground arith)

judgement-confirmation_required :
    (allowed destructive : Bool)
    → judgement allowed destructive ≡ DecisionStatus.confirmation_required
    → allowed ≡ true
judgement-confirmation_required true destructive h = refl
judgement-confirmation_required false destructive h = absurd (ground arith)

module _ (P : Db → Type 0) (ilike : Text → Text → Bool) where
  resolve_phrase-Keeps :
      (p : ActionProposal Parameters) (phrase : Text) (t : Target)
      → Keeps P (Resolver.resolve_phrase ilike p phrase t)
  unfolding Resolver.resolve_phrase TaskRepository.find_by_name ReminderRepository.find_by_task_name
  resolve_phrase-Keeps p phrase Target.task = search keeps_rules depth 8
  resolve_phrase-Keeps p phrase Target.reminder = search keeps_rules depth 8
  resolve_phrase-Keeps p phrase Target.nothing = search keeps_rules

  resolve_reference-Keeps :
      (p : ActionProposal Parameters) (free : Bool) (ref : Option ResourceReference)
      → Keeps P (Resolver.resolve_reference ilike p free ref)
  unfolding Resolver.resolve_reference
  resolve_reference-Keeps p true none = search keeps_rules
  resolve_reference-Keeps p true (some ref) = search keeps_rules
  resolve_reference-Keeps p false none = search keeps_rules
  resolve_reference-Keeps p false (some (by_id k phrase)) = search keeps_rules
  resolve_reference-Keeps p false (some (by_phrase phrase)) = resolve_phrase-Keeps p phrase _

  resolve-Keeps : (p : ActionProposal Parameters) → Keeps P (Resolver.resolve ilike p)
  unfolding Resolver.resolve
  resolve-Keeps p = resolve_reference-Keeps p _ p.resource

module _ (x : Outside) (settings : Settings) (reads : Reads) (request : AgentChatRequest)
    (P : Db → Type 0) where
  narrate-Keeps : (r : ExecutionResult) → Keeps P (narrate x settings reads request r)
  unfolding narrate
  narrate-Keeps r =
      if-Keeps P (is_narrated r.status r.action_type) _ _ (from_result-Keeps P _) (Keeps-pure P _)

  pub run_command-Keeps :
      (decision : DecisionResult) (c : ExecutionCommand) (k : Option Uuid)
      → Writes P (is_destructive c.action_type)
      → Keeps P (run_command x settings reads request decision c k)
  unfolding run_command
  run_command-Keeps decision c k w = search (keeps_rules, execute-Keeps, narrate-Keeps) depth 8

  module _ (r : Requests P (permitted settings.authorization request.user_id)) where
    ask_confirmation-Keeps :
        (decision : DecisionResult)
        → permitted settings.authorization request.user_id ≡ true
        → Keeps P (ask_confirmation x settings reads request decision)
    unfolding ask_confirmation ConfirmationRepository.get_by_id
    ask_confirmation-Keeps decision allowed =
        let inserts = r.insert allowed in search (keeps_rules, create-Keeps, inserts) depth 8

    branch-Keeps :
        (action : ActionType) (decision : DecisionResult) (status : DecisionStatus)
        → decision.action.action_type ≡ action
        → judgement (permitted settings.authorization request.user_id) (is_destructive action)
          ≡ status
        → Keeps P (branch x settings reads request decision status)
    unfolding branch from_decision
    branch-Keeps action decision DecisionStatus.authorized is h =
        let safe = judgement-authorized _ (is_destructive action) h in
        run_command-Keeps decision _ none
          (Writes-safe P _ (ap is_destructive is ∙ safe.0) (r.writes safe.1))
    branch-Keeps action decision DecisionStatus.confirmation_required is h =
        ask_confirmation-Keeps decision
          (judgement-confirmation_required _ (is_destructive action) h)
    branch-Keeps action decision DecisionStatus.denied is h = Keeps-pure P _
    branch-Keeps action decision DecisionStatus.not_configured is h = Keeps-pure P _

    after_resolution-Keeps :
        (resolution : Resolution Parameters)
        → Keeps P (after_resolution x settings reads request resolution)
    unfolding after_resolution
    after_resolution-Keeps clarification = Keeps-pure P _
    after_resolution-Keeps (resolved action) =
        branch-Keeps action.action_type _ _ refl
          (sym (decide-judgement settings.authorization action.action_type request.user_id))

    after_validation-Keeps :
        (p : ActionProposal Parameters) (status : Option AgentChatStatus)
        → Keeps P (after_validation x settings reads request p status)
    unfolding after_validation
    after_validation-Keeps p (some status) = Keeps-pure P _
    after_validation-Keeps p none =
        search (keeps_rules, resolve-Keeps, after_resolution-Keeps) depth 6

    pub by_proposal-Keeps :
        (type : ResponseType) (p : Option (ActionProposal Parameters))
        → Keeps P (by_proposal x settings reads request type p)
    unfolding by_proposal
    by_proposal-Keeps type none = search keeps_rules depth 6
    by_proposal-Keeps type (some p) =
        search (keeps_rules, from_result-Keeps, after_validation-Keeps) depth 6
