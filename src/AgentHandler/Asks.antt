-- ===== src/AgentHandler/Asks.antt =====
-- A deletion asks first, and runs when it is confirmed: two requests that nothing disturbs.
use personal_deadline_manage.Common.{
  ◌≡◌, refl, ◌∙◌, ◌<◌, ◌++◌, true, Option, none, some, [], ◌∷◌, arith,
}
use personal_deadline_manage.Model.{
  Uuid, Text, Moment, Task, PendingConfirmation, PendingConfirmationStatus, same_user,
}
use personal_deadline_manage.Model.Time.{plus_seconds}
use personal_deadline_manage.Store.{Db, ok, open_session, statement, commit, transact}
use personal_deadline_manage.Store.Rows.{row, HasKeys, row-append, append-HasKeys, row-without_self}
use personal_deadline_manage.Store.TaskRepository.{task_id, delete_task_row}
use personal_deadline_manage.Store.ConfirmationRepository
use personal_deadline_manage.Store.ConfirmationRepository.{
  confirmation_id, insert_confirmation, win,
}
use personal_deadline_manage.PendingConfirmationModule
use personal_deadline_manage.Guardrails.{ActionType, ActionProposal, by_id}
use personal_deadline_manage.Guardrails.Decision.{
  DecisionStatus, decide, decide-judgement, permitted,
}
use personal_deadline_manage.Guardrails.Resolver.{resolve, resolve_reference}
use personal_deadline_manage.Parameters.{Parameters}
use personal_deadline_manage.ActionValidator.{validate}
use personal_deadline_manage.AgentInterpreter.{ResponseType}
use personal_deadline_manage.ActionExecutor.Command.{
  DecisionResult, ExecutionCommand, from_decision,
}
use personal_deadline_manage.AgentHandler.Answers.{
  AgentChatStatus, AgentChatRequest, AgentChatResponse, Settings, Outside, Reads,
}
use personal_deadline_manage.AgentHandler.Pipeline.{
  ask_confirmation, branch, after_resolution, after_validation, by_proposal, handle_confirmation,
}
use personal_deadline_manage.AgentHandler.Delivers.{
  deletion, deleted, run_deletion, handle_confirmation-run_command,
}

module _ (x : Outside) (settings : Settings) (reads : Reads) (request : AgentChatRequest) where
  -- The row that keeps a command.
  abbrev pub kept : ExecutionCommand → Moment → PendingConfirmation
  kept command expires = record {
    id = reads.fresh;
    user_id = request.user_id;
    execution_command = x.dump command;
    created_at = reads.create_at;
    expires_at = expires;
    status = PendingConfirmationStatus.pending;
  }

  abbrev pub keeping : ExecutionCommand → Moment → Db → Db
  keeping command expires db = record db {
    confirmations = db.confirmations ++ kept command expires ∷ [];
  }

  abbrev pub asked : AgentChatResponse
  asked = record {
    status = AgentChatStatus.confirmation_required;
    execution_result = none;
    confirmation_id = some reads.fresh;
  }

  row-keeping :
      (command : ExecutionCommand) (expires : Moment) (db : Db)
      → row confirmation_id reads.fresh db.confirmations ≡ none
      → row confirmation_id reads.fresh (keeping command expires db).confirmations
        ≡ some (kept command expires)
  row-keeping command expires db free =
      row-append confirmation_id reads.fresh db.confirmations (kept command expires)
      ∙ ground (arith, free)

  ask_confirmation_calm :
      (decision : DecisionResult) (expires : Moment) (db : Db)
      → row confirmation_id reads.fresh db.confirmations ≡ none
      → plus_seconds reads.create_at settings.pending_confirmation_ttl_seconds ≡ some expires
      → ask_confirmation x settings reads request decision (open_session db [])
        ≡ (ok asked, open_session (keeping (from_decision decision) expires db) [])
  unfolding ask_confirmation PendingConfirmationModule.create ConfirmationRepository.create
      insert_confirmation statement commit transact
  ask_confirmation_calm decision expires db free fits =
      rw (fits, free) (rw (row-keeping (from_decision decision) expires db free) refl)

abbrev pub deletion_proposal : Uuid → Option Text → Parameters → ActionProposal Parameters
deletion_proposal t phrase ps = record {
  action_type = ActionType.delete_task;
  resource = some (by_id t phrase);
  parameters = ps;
}

module _ (x : Outside) (settings : Settings) (reads : Reads) (request : AgentChatRequest) where
  branch_calm :
      (decision : DecisionResult) (status : DecisionStatus) (expires : Moment) (db : Db)
      → status ≡ DecisionStatus.confirmation_required
      → row confirmation_id reads.fresh db.confirmations ≡ none
      → plus_seconds reads.create_at settings.pending_confirmation_ttl_seconds ≡ some expires
      → branch x settings reads request decision status (open_session db []) ≡ (
        ok (asked x settings reads request),
        open_session (keeping x settings reads request (from_decision decision) expires db) [],
      )
  unfolding branch
  branch_calm decision status expires db is free fits =
      rw is (ask_confirmation_calm x settings reads request decision expires db free fits)

  decides :
      (action : ActionType)
      → permitted settings.authorization request.user_id ≡ true
      → action ≡ ActionType.delete_task
      → decide settings.authorization action request.user_id ≡ DecisionStatus.confirmation_required
  decides action allowed is =
      decide-judgement settings.authorization action request.user_id ∙ rw (is, allowed) refl

  pub by_proposal_asks :
      (type : ResponseType) (t : Uuid) (phrase : Option Text) (ps : Parameters) (expires : Moment)
      (db : Db)
      → permitted settings.authorization request.user_id ≡ true
      → row confirmation_id reads.fresh db.confirmations ≡ none
      → plus_seconds reads.create_at settings.pending_confirmation_ttl_seconds ≡ some expires
      → by_proposal x settings reads request type
          (some (deletion_proposal t phrase ps))
          (open_session db [])
        ≡ (
          ok (asked x settings reads request),
          open_session (keeping x settings reads request (deletion t ps) expires db) [],
        )
  unfolding by_proposal validate after_validation resolve resolve_reference after_resolution
      from_decision
  by_proposal_asks type t phrase ps expires db allowed free fits =
      branch_calm _ _ expires db (decides ActionType.delete_task allowed refl) free fits

same_user_refl : (u : Option Uuid) → same_user u u ≡ true
same_user_refl none = refl
same_user_refl (some a) = ground arith

-- Where the first request has stored the deletion of the task `t`, the second confirms it.
module _ (x : Outside) (settings : Settings) (first second : Reads) (request : AgentChatRequest)
    (again : AgentChatRequest) where
  -- On tables with unique ids, let a permitted user propose to delete a stored task by its id,
  -- where the new row's id is free, its expiry is a datetime and the stored text of the command
  -- reads back as the command. Then an undisturbed proposal answers CONFIRMATION_REQUIRED and
  -- leaves the tasks as they were; and if a later undisturbed request of the same user confirms it
  -- by its id before the expiry, that request answers EXECUTED and commits tables without the
  -- task.
  pub deletion-handle_confirmation :
      (type : ResponseType) (t : Uuid) (phrase : Option Text) (ps : Parameters) (expires : Moment)
      (db : Db) (task : Task)
      → permitted settings.authorization request.user_id ≡ true
      → again.user_id ≡ request.user_id
      → HasKeys task_id db.tasks
      → HasKeys confirmation_id db.confirmations
      → row task_id t db.tasks ≡ some task
      → row confirmation_id first.fresh db.confirmations ≡ none
      → plus_seconds first.create_at settings.pending_confirmation_ttl_seconds ≡ some expires
      → second.confirm_at < expires
      → x.load (x.dump (deletion t ps)) ≡ some (deletion t ps)
      → let asks =
          by_proposal x settings first request type
            (some (deletion_proposal t phrase ps))
            (open_session db []) in
        let answers = handle_confirmation x settings second again (some first.fresh) asks.1 in
        (asks.0 ≡ ok (asked x settings first request))
        × (asks.1.committed.tasks ≡ db.tasks)
        × (answers.0 ≡ ok (deleted x settings second again t ps first.fresh))
        × (row task_id t answers.1.committed.tasks ≡ none)
  deletion-handle_confirmation type t phrase ps expires db task allowed same keys ids here free fits
        early loads =
      let stored = keeping x settings first request (deletion t ps) expires db in
      let c = kept x settings first request (deletion t ps) expires in
      let first_run =
        by_proposal_asks x settings first request type t phrase ps expires db allowed free fits in
      let own : same_user c.user_id again.user_id ≡ true =
        rw same (same_user_refl request.user_id) in
      let runs =
        handle_confirmation-run_command x settings second again first.fresh stored c (deletion t ps)
          (append-HasKeys confirmation_id db.confirmations c ids free)
          (row-keeping x settings first request (deletion t ps) expires db free) refl own early
          loads
        ∙ run_deletion x settings second again t first.fresh ps
            (win first.fresh again.user_id second.confirm_at stored).1 task (unfold win in here) in
      rw (first_run, runs)
        ((refl, refl, refl, unfold delete_task_row win in row-without_self task_id t db.tasks keys))
