-- ===== src/ActionExecutor/Runs.antt =====
-- What an execution of a command keeps of the tables.
use personal_deadline_manage.Common.{Bool, true, not, Option, none, some}
use personal_deadline_manage.Common.Int.{ℤ}
use personal_deadline_manage.Model.{Uuid, Text, Moment}
use personal_deadline_manage.Store.{Db, Result, ok, err}
use personal_deadline_manage.Store.Keeps.{Keeps, Keeps-pure, keeps_rules}
use personal_deadline_manage.Store.TaskRepository
use personal_deadline_manage.Store.ReminderRepository
use personal_deadline_manage.TaskModule
use personal_deadline_manage.PendingConfirmationModule.Invariant.{if-Keeps}
use personal_deadline_manage.Guardrails.{ActionType}
use personal_deadline_manage.Guardrails.Decision.{is_destructive}
use personal_deadline_manage.Parameters.{Json, Parameters, Parsed}
use personal_deadline_manage.ActionExecutor.Command.{
  DecisionResult, ExecutionCommand, Entity, nothing, task, reminder, analysis, is_authorized,
}
use personal_deadline_manage.ActionExecutor.Dispatch.{
  create_task, update_row, update_task, delete_task, remind, create_reminder, change_reminder,
  update_reminder, delete_reminder, tasks_in_range, analyze_workload, suggest_rescheduling,
  dispatch_by, dispatch,
}
use personal_deadline_manage.ActionExecutor.Execute.{
  executed, conclude, attempt, execute, same_action,
}
use personal_deadline_manage.ActionExecutor.Keeps.{
  Writes, from_result-Keeps, no_row-Keeps, create_with-Keeps, update_texts-Keeps, created_reminder,
  updated_reminder, deleted_task, deleted_reminder,
}

module _ (fromisoformat : Text → Parsed) (driver_text : Json → Option Text) (daily : ℤ)
    (fresh : Uuid) (now : Moment) (P : Db → Type 0) where
  tasks_in_range-Keeps :
      (ps : Parameters) → Keeps P (tasks_in_range fromisoformat driver_text daily fresh now ps)
  unfolding tasks_in_range TaskModule.find_tasks_by_deadline_range
      TaskRepository.find_by_deadline_range
  tasks_in_range-Keeps ps = search (keeps_rules, from_result-Keeps) depth 12

  module _ {deletes : Bool} (w : Writes P deletes) where
    create_task-Keeps :
        (ps : Parameters) → Keeps P (create_task fromisoformat driver_text daily fresh now ps)
    unfolding create_task
    create_task-Keeps ps = search (keeps_rules, from_result-Keeps, create_with-Keeps) depth 12

    update_row-Keeps :
        (k : Option Uuid) (deadline : Option Moment) (ps : Parameters)
        → Keeps P (update_row fromisoformat driver_text daily fresh now k deadline ps)
    unfolding update_row
    update_row-Keeps none deadline ps = no_row-Keeps P _
    update_row-Keeps (some k) deadline ps = update_texts-Keeps P w _ _ _ _ _ _ _ _

    update_task-Keeps :
        (k : Option Uuid) (ps : Parameters)
        → Keeps P (update_task fromisoformat driver_text daily fresh now k ps)
    unfolding update_task
    update_task-Keeps k ps = search (keeps_rules, from_result-Keeps, update_row-Keeps) depth 12

    remind-Keeps :
        (k : Option Uuid) (t : Moment)
        → Keeps P (remind fromisoformat driver_text daily fresh now k t)
    unfolding remind
    remind-Keeps none t = no_row-Keeps P _
    remind-Keeps (some k) t = search (keeps_rules, created_reminder P w) depth 6

    create_reminder-Keeps :
        (k : Option Uuid) (ps : Parameters)
        → Keeps P (create_reminder fromisoformat driver_text daily fresh now k ps)
    unfolding create_reminder
    create_reminder-Keeps k ps = search (keeps_rules, from_result-Keeps, remind-Keeps) depth 12

    change_reminder-Keeps :
        (k : Option Uuid) (t : Option Moment) (ps : Parameters)
        → Keeps P (change_reminder fromisoformat driver_text daily fresh now k t ps)
    unfolding change_reminder
    change_reminder-Keeps none t ps = no_row-Keeps P _
    change_reminder-Keeps (some k) t ps = search (keeps_rules, updated_reminder P w) depth 6

    update_reminder-Keeps :
        (k : Option Uuid) (ps : Parameters)
        → Keeps P (update_reminder fromisoformat driver_text daily fresh now k ps)
    unfolding update_reminder
    update_reminder-Keeps k ps =
        search (keeps_rules, from_result-Keeps, change_reminder-Keeps) depth 12

  module _ (w : Writes P true) where
    delete_task-Keeps :
        (k : Option Uuid) → Keeps P (delete_task fromisoformat driver_text daily fresh now k)
    unfolding delete_task
    delete_task-Keeps none = no_row-Keeps P _
    delete_task-Keeps (some k) = search (keeps_rules, deleted_task P w) depth 6

    delete_reminder-Keeps :
        (k : Option Uuid) → Keeps P (delete_reminder fromisoformat driver_text daily fresh now k)
    unfolding delete_reminder
    delete_reminder-Keeps none = no_row-Keeps P _
    delete_reminder-Keeps (some k) = search (keeps_rules, deleted_reminder P w) depth 6

  dispatch_by-Keeps :
      (action : ActionType) (k : Option Uuid) (ps : Parameters)
      → Writes P (is_destructive action)
      → Keeps P (dispatch_by fromisoformat driver_text daily fresh now action k ps)
  unfolding dispatch_by
  dispatch_by-Keeps ActionType.create_task k ps w = create_task-Keeps w ps
  dispatch_by-Keeps ActionType.update_task k ps w = update_task-Keeps w k ps
  dispatch_by-Keeps ActionType.delete_task k ps w = delete_task-Keeps w k
  dispatch_by-Keeps ActionType.create_reminder k ps w = create_reminder-Keeps w k ps
  dispatch_by-Keeps ActionType.update_reminder k ps w = update_reminder-Keeps w k ps
  dispatch_by-Keeps ActionType.delete_reminder k ps w = delete_reminder-Keeps w k
  dispatch_by-Keeps ActionType.analyze_workload k ps w =
      unfold analyze_workload in search (keeps_rules, from_result-Keeps, tasks_in_range-Keeps)
  dispatch_by-Keeps ActionType.suggest_rescheduling k ps w =
      unfold suggest_rescheduling in search (keeps_rules, from_result-Keeps, tasks_in_range-Keeps)

  executed-Keeps : (c : ExecutionCommand) (entity : Entity) → Keeps P (executed c entity)
  unfolding executed TaskRepository.get_by_id ReminderRepository.get_by_id
  executed-Keeps c nothing = search keeps_rules
  executed-Keeps c (task t) = search keeps_rules depth 8
  executed-Keeps c (reminder r) = search keeps_rules depth 8
  executed-Keeps c (analysis found) = search keeps_rules

  conclude-Keeps : (c : ExecutionCommand) (r : Result Entity) → Keeps P (conclude c r)
  unfolding conclude
  conclude-Keeps c (ok entity) = executed-Keeps c entity
  conclude-Keeps c (err e) = Keeps-pure P _

  attempt-Keeps :
      (c : ExecutionCommand)
      → Writes P (is_destructive c.action_type)
      → Keeps P (attempt fromisoformat driver_text daily fresh now c)
  unfolding attempt dispatch
  attempt-Keeps c w = record {
    at = λ s h.
        (conclude-Keeps c _).at _
          ((dispatch_by-Keeps c.action_type c.resource_id c.parameters w).at s h);
  }

  -- Whatever the decision, an execution keeps what its action's statements keep.
  pub execute-Keeps :
      (decision : DecisionResult) (c : ExecutionCommand)
      → Writes P (is_destructive c.action_type)
      → Keeps P (execute fromisoformat driver_text daily fresh now decision c)
  unfolding execute
  execute-Keeps decision c w =
      if-Keeps P (not (is_authorized decision.status)) _ _ (Keeps-pure P _) (
        if-Keeps P (not (same_action c.action_type decision.action.action_type)) _ _
          (Keeps-pure P _) (attempt-Keeps c w))
