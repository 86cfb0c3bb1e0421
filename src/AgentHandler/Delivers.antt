-- ===== src/AgentHandler/Delivers.antt =====
-- What becomes of a stored command that its user confirms, when nothing disturbs the request.
use personal_deadline_manage.Common.{◌≡◌, refl, ◌∙◌, ◌<◌, true, Option, none, some, [], arith}
use personal_deadline_manage.Model.{
  Uuid, Moment, Task, PendingConfirmation, PendingConfirmationStatus, same_user,
}
use personal_deadline_manage.Store.{Db, ok, open_session, statement, commit, transact}
use personal_deadline_manage.Store.Rows.{row, HasKeys, id-row, count_where}
use personal_deadline_manage.Store.TaskRepository.{task_id, delete_task_row}
use personal_deadline_manage.Store.ConfirmationRepository.{
  confirmation_id, confirmable, as_confirmed, win,
}
use personal_deadline_manage.TaskService
use personal_deadline_manage.TaskModule
use personal_deadline_manage.PendingConfirmationModule.{
  ConfirmOutcome, diagnosis, won, commit_after, confirm, after_update,
}
use personal_deadline_manage.PendingConfirmationModule.Verdict.{row-win, count-confirmable}
use personal_deadline_manage.Guardrails.{ActionType}
use personal_deadline_manage.Parameters.{Parameters}
use personal_deadline_manage.ActionExecutor.Command.{ExecutionCommand, ExecutionStatus, result}
use personal_deadline_manage.ActionExecutor.Dispatch.{dispatch, delete_task}
use personal_deadline_manage.ActionExecutor.Execute.{
  decision_for, execute, attempt, conclude, executed,
}
use personal_deadline_manage.AgentHandler.Answers.{
  AgentChatStatus, AgentChatRequest, AgentChatResponse, Settings, Outside, Reads,
}
use personal_deadline_manage.AgentHandler.Pipeline.{
  narrate, run_command, run_stored, by_verdict, confirm_pending, handle_confirmation,
}

won_calm :
    (k : Uuid) (before db : Db) (c : PendingConfirmation)
    → row confirmation_id k db.confirmations ≡ some c
    → won none k (record { committed = before; working = db; world = [] })
      ≡ (ok (diagnosis ConfirmOutcome.confirmed c), open_session db [])
unfolding won statement commit_after commit
won_calm k before db c here = rw here (rw here refl)

-- The row is confirmable: it is PENDING, the user's, and has time left.
confirm_calm :
    (now : Moment) (k : Uuid) (user : Option Uuid) (db : Db) (c : PendingConfirmation)
    → HasKeys confirmation_id db.confirmations
    → row confirmation_id k db.confirmations ≡ some c
    → confirmable k user now c ≡ true
    → confirm none now k user (open_session db []) ≡ (
      ok (diagnosis ConfirmOutcome.confirmed (as_confirmed c)),
      open_session (win k user now db).1 [],
    )
unfolding confirm after_update statement win
confirm_calm now k user db c keys here taken =
    let one_counted : count_where (confirmable k user now) db.confirmations ≡ 1 =
      ground (arith, here, taken, count-confirmable k user now db.confirmations keys) in
    let set : row confirmation_id k (win k user now db).1.confirmations ≡ some (as_confirmed c) =
      row-win k k user now db ∙ ground (arith, here, taken) in
    rw (one_counted, after_update) (won_calm k db (win k user now db).1 (as_confirmed c) set)

module _ (x : Outside) (settings : Settings) (reads : Reads) (request : AgentChatRequest) where
  run_stored_calm :
      (k : Uuid) (db : Db) (c : PendingConfirmation) (command : ExecutionCommand)
      → c.id ≡ k
      → row confirmation_id k db.confirmations ≡ some c
      → x.load c.execution_command ≡ some command
      → run_stored x settings reads request k (some c) (open_session db [])
        ≡ run_command x settings reads request
            (decision_for command)
            command
            (some k)
            (open_session db [])
  unfolding run_stored statement
  run_stored_calm k db c command same here loads = rw (same, here) (rw loads refl)

  -- On confirmations with unique ids, where the row `k` is PENDING, the request's user's and
  -- before its expiry, and its text reads back as a command, an undisturbed confirmation of `k`
  -- does exactly what running that command on the tables with the row CONFIRMED does, under a
  -- decision made from the command.
  pub handle_confirmation-run_command :
      (k : Uuid) (db : Db) (c : PendingConfirmation) (command : ExecutionCommand)
      → HasKeys confirmation_id db.confirmations
      → row confirmation_id k db.confirmations ≡ some c
      → c.status ≡ PendingConfirmationStatus.pending
      → same_user c.user_id request.user_id ≡ true
      → reads.confirm_at < c.expires_at
      → x.load c.execution_command ≡ some command
      → handle_confirmation x settings reads request (some k) (open_session db [])
        ≡ run_command x settings reads request
            (decision_for command)
            command
            (some k)
            (open_session (win k request.user_id reads.confirm_at db).1 [])
  unfolding handle_confirmation confirm_pending by_verdict
  handle_confirmation-run_command k db c command keys here pending own early loads =
      let same = id-row confirmation_id k db.confirmations c here in
      let taken : confirmable k request.user_id reads.confirm_at c ≡ true =
        ground (arith, same, pending, own, early) in
      let after = (win k request.user_id reads.confirm_at db).1 in
      let set : row confirmation_id k after.confirmations ≡ some (as_confirmed c) =
        row-win k k request.user_id reads.confirm_at db ∙ ground (arith, here, taken) in
      rw (confirm_calm reads.confirm_at k request.user_id db c keys here taken)
        (run_stored_calm k after (as_confirmed c) command same set loads)

-- The command that deletes the task `k`.
abbrev pub deletion : Uuid → Parameters → ExecutionCommand
deletion k ps = record {
  action_type = ActionType.delete_task;
  resource_id = some k;
  parameters = ps;
}

delete_calm :
    (k : Uuid) (db : Db) (t : Task)
    → row task_id k db.tasks ≡ some t
    → TaskModule.delete_task k (open_session db [])
      ≡ (ok tt, open_session (delete_task_row k db).1 [])
unfolding TaskModule.delete_task TaskService.delete_task statement commit transact
delete_calm k db t here = rw here (rw here refl)

module _ (x : Outside) (settings : Settings) (reads : Reads) (request : AgentChatRequest) where
  -- What a deletion answers.
  abbrev pub deleted : Uuid → Parameters → Uuid → AgentChatResponse
  deleted t ps k = record {
    status = AgentChatStatus.executed;
    execution_result = some (result ExecutionStatus.executed (deletion t ps));
    confirmation_id = some k;
  }

  pub run_deletion :
      (t k : Uuid) (ps : Parameters) (db : Db) (task : Task)
      → row task_id t db.tasks ≡ some task
      → run_command x settings reads request
          (decision_for (deletion t ps))
          (deletion t ps)
          (some k)
          (open_session db [])
        ≡ (ok (deleted t ps k), open_session (delete_task_row t db).1 [])
  unfolding run_command execute attempt dispatch delete_task conclude executed narrate decision_for
      delete_task_row
  run_deletion t k ps db task here = rw (delete_calm t db task here) refl
