-- ===== src/ActionExecutor/Unchanged.antt =====
-- A command that fails leaves the tables as they were.
use personal_deadline_manage.Common.{
  ◌⊎◌, inl, inr, ◌≡◌, refl, Bool, true, false, not, Option, none, some, if◌then◌else◌,
}
use personal_deadline_manage.Common.Int.{ℤ}
use personal_deadline_manage.Model.{Uuid, Text, Moment, TaskPriority, TaskStatus, Column}
use personal_deadline_manage.Store.{
  Db, Session, Result, ok, err, database_error, Action, pure, or_raise, ◌>>=◌,
}
use personal_deadline_manage.Store.Atomic.{IsQuiet, Isolated, isolated_rules}
use personal_deadline_manage.Store.Returns.{Returns, Returns-bind, Returns-anything}
use personal_deadline_manage.Store.TaskRepository
use personal_deadline_manage.Store.ReminderRepository
use personal_deadline_manage.TaskService.{Field}
use personal_deadline_manage.TaskModule
use personal_deadline_manage.TaskModule.Invariant.{
  service_create_task-Isolated, service_update_task-Isolated, service_delete_task-Isolated,
}
use personal_deadline_manage.ReminderModule
use personal_deadline_manage.ReminderModule.Invariant.{
  service_create_reminder-Isolated, service_update_reminder-Isolated,
  service_delete_reminder-Isolated,
}
use personal_deadline_manage.Guardrails.{ActionType}
use personal_deadline_manage.Parameters.{Json, Parameters, Parsed}
use personal_deadline_manage.ActionExecutor.Command.{
  DecisionResult, ExecutionCommand, ExecutionStatus, ExecutionResult, Entity, nothing, task,
  reminder, analysis, is_authorized,
}
use personal_deadline_manage.ActionExecutor.Changes.{create_with, update_texts}
use personal_deadline_manage.ActionExecutor.Dispatch.{
  create_task, update_row, update_task, delete_task, remind, create_reminder, change_reminder,
  update_reminder, delete_reminder, tasks_in_range, analyze_workload, suggest_rescheduling,
  dispatch_by, dispatch,
}
use personal_deadline_manage.ActionExecutor.Execute.{
  executed, conclude, attempt, execute, same_action,
}
use personal_deadline_manage.ActionExecutor.Fails.{
  Undone, AllOrNothing, isolated, transacted, returned, bound, from_result-Isolated,
  no_row-AllOrNothing, create_refused-AllOrNothing, update_refused-AllOrNothing,
}

module _ (fresh : Uuid) (now : Moment) where
  create_with-AllOrNothing :
      (deadline : Moment) (name : Option Text) (description : Option (Option Text))
      (priority : Option (Column TaskPriority)) (duration : Result (Option ℤ))
      → AllOrNothing (create_with fresh now deadline name description priority duration)
  unfolding TaskModule.create_task
  create_with-AllOrNothing deadline (some n) (some d) (some p) (ok m) =
      transacted _ (service_create_task-Isolated fresh now n d deadline p m)
  create_with-AllOrNothing deadline (some n) (some d) (some p) (err e) =
      create_refused-AllOrNothing now deadline (err e)
  create_with-AllOrNothing deadline (some n) (some d) none m =
      create_refused-AllOrNothing now deadline m
  create_with-AllOrNothing deadline (some n) none p m = create_refused-AllOrNothing now deadline m
  create_with-AllOrNothing deadline none d p m = create_refused-AllOrNothing now deadline m

  update_texts-AllOrNothing :
      (k : Uuid) (deadline : Option Moment) (d : Result (Field (Option ℤ)))
      (name : Option (Option Text)) (description : Option (Option Text))
      (priority : Option (Option (Column TaskPriority)))
      (status : Option (Option (Column TaskStatus)))
      → AllOrNothing (update_texts now k deadline d name description priority status)
  unfolding TaskModule.update_task
  update_texts-AllOrNothing k deadline (ok d) (some n) (some t) (some p) (some s) =
      transacted _ (service_update_task-Isolated now k _)
  update_texts-AllOrNothing k deadline (ok d) (some n) (some t) (some p) none =
      update_refused-AllOrNothing now k deadline (ok d)
  update_texts-AllOrNothing k deadline (ok d) (some n) (some t) none s =
      update_refused-AllOrNothing now k deadline (ok d)
  update_texts-AllOrNothing k deadline (ok d) (some n) none p s =
      update_refused-AllOrNothing now k deadline (ok d)
  update_texts-AllOrNothing k deadline (ok d) none t p s =
      update_refused-AllOrNothing now k deadline (ok d)
  update_texts-AllOrNothing k deadline (err e) n t p s =
      update_refused-AllOrNothing now k deadline (err e)

module _ (fromisoformat : Text → Parsed) (driver_text : Json → Option Text) (daily : ℤ)
    (fresh : Uuid) (now : Moment) where
  update_row-AllOrNothing :
      (k : Option Uuid) (deadline : Option Moment) (ps : Parameters)
      → AllOrNothing (update_row fromisoformat driver_text daily fresh now k deadline ps)
  unfolding update_row
  update_row-AllOrNothing none deadline ps = no_row-AllOrNothing _
  update_row-AllOrNothing (some k) deadline ps =
      update_texts-AllOrNothing fresh now k deadline _ _ _ _ _

  remind-AllOrNothing :
      (k : Option Uuid) (t : Moment)
      → AllOrNothing (remind fromisoformat driver_text daily fresh now k t)
  unfolding remind ReminderModule.create_reminder
  remind-AllOrNothing none t = no_row-AllOrNothing _
  remind-AllOrNothing (some k) t =
      returned _ _ (transacted _ (service_create_reminder-Isolated fresh now k t))

  change_reminder-AllOrNothing :
      (k : Option Uuid) (t : Option Moment) (ps : Parameters)
      → AllOrNothing (change_reminder fromisoformat driver_text daily fresh now k t ps)
  unfolding change_reminder ReminderModule.update_reminder
  change_reminder-AllOrNothing none t ps = no_row-AllOrNothing _
  change_reminder-AllOrNothing (some k) t ps =
      returned _ _ (transacted _ (service_update_reminder-Isolated now k t _))

  delete_task-AllOrNothing :
      (k : Option Uuid) → AllOrNothing (delete_task fromisoformat driver_text daily fresh now k)
  unfolding delete_task TaskModule.delete_task
  delete_task-AllOrNothing none = no_row-AllOrNothing _
  delete_task-AllOrNothing (some k) = returned _ _ (transacted _ (service_delete_task-Isolated k))

  delete_reminder-AllOrNothing :
      (k : Option Uuid) → AllOrNothing (delete_reminder fromisoformat driver_text daily fresh now k)
  unfolding delete_reminder ReminderModule.delete_reminder
  delete_reminder-AllOrNothing none = no_row-AllOrNothing _
  delete_reminder-AllOrNothing (some k) =
      returned _ _ (transacted _ (service_delete_reminder-Isolated k))

  tasks_in_range-Isolated :
      (ps : Parameters) → Isolated (tasks_in_range fromisoformat driver_text daily fresh now ps)
  unfolding tasks_in_range TaskModule.find_tasks_by_deadline_range
      TaskRepository.find_by_deadline_range
  tasks_in_range-Isolated ps = search (isolated_rules, from_result-Isolated) depth 12

  dispatch_by-AllOrNothing :
      (action : ActionType) (k : Option Uuid) (ps : Parameters)
      → AllOrNothing (dispatch_by fromisoformat driver_text daily fresh now action k ps)
  unfolding dispatch_by
  dispatch_by-AllOrNothing ActionType.create_task k ps =
      unfold create_task in
      search (bound, returned, create_with-AllOrNothing, isolated_rules, from_result-Isolated)
  dispatch_by-AllOrNothing ActionType.update_task k ps =
      unfold update_task in
      search (bound, returned, update_row-AllOrNothing, isolated_rules, from_result-Isolated)
  dispatch_by-AllOrNothing ActionType.delete_task k ps = delete_task-AllOrNothing k
  dispatch_by-AllOrNothing ActionType.create_reminder k ps =
      unfold create_reminder in
      search (bound, remind-AllOrNothing, isolated_rules, from_result-Isolated)
  dispatch_by-AllOrNothing ActionType.update_reminder k ps =
      unfold update_reminder in
      search (bound, change_reminder-AllOrNothing, isolated_rules, from_result-Isolated)
  dispatch_by-AllOrNothing ActionType.delete_reminder k ps = delete_reminder-AllOrNothing k
  dispatch_by-AllOrNothing ActionType.analyze_workload k ps =
      unfold analyze_workload in
      isolated _ (search (isolated_rules, tasks_in_range-Isolated, from_result-Isolated))
  dispatch_by-AllOrNothing ActionType.suggest_rescheduling k ps =
      unfold suggest_rescheduling in
      isolated _ (search (isolated_rules, tasks_in_range-Isolated, from_result-Isolated))

-- A result that is not EXECUTED comes with the committed tables of before.
abbrev pub is_executed : ExecutionStatus → Bool
is_executed ExecutionStatus.executed = true
is_executed _ = false

abbrev pub LeavesTables : Db → Result ExecutionResult × Session → Type 0
LeavesTables before (ok r, s) = (is_executed r.status ≡ true) ⊎ (s.committed ≡ before)
LeavesTables before (err e, s) = Unit

abbrev pub Reports : ExecutionResult → Type 0
Reports r = is_executed r.status ≡ true

-- An entity that was produced is reported as EXECUTED, or not at all.
or_raise-Reports :
    {R : Type 0} (found : Option R) (g : R → ExecutionResult) (s : Session)
    → ((r : R) → Reports (g r))
    → Returns Reports ((or_raise found database_error >>= λ r. pure (g r)) s)
or_raise-Reports none g s h = tt
or_raise-Reports (some r) g s h = h r

executed-Reports :
    (c : ExecutionCommand) (entity : Entity) (s : Session) → Returns Reports (executed c entity s)
unfolding executed
executed-Reports c nothing s = refl
executed-Reports c (analysis found) s = refl
executed-Reports c (task t) s =
    Returns-bind (λ o. Unit) Reports (TaskRepository.get_by_id t.id) _ s
      (Returns-anything (TaskRepository.get_by_id t.id s))
      (λ o s' h. or_raise-Reports o _ s' (λ r. refl))
executed-Reports c (reminder r) s =
    Returns-bind (λ o. Unit) Reports (ReminderRepository.get_by_id r.id) _ s
      (Returns-anything (ReminderRepository.get_by_id r.id s))
      (λ o s' h. or_raise-Reports o _ s' (λ r. refl))

Reports-LeavesTables :
    (before : Db) (r : Result ExecutionResult × Session) → Returns Reports r → LeavesTables before r
Reports-LeavesTables before (ok r, s) h = inl h
Reports-LeavesTables before (err e, s) h = tt

conclude-LeavesTables :
    (before : Db) (c : ExecutionCommand) (r : Result Entity) (s : Session)
    → Undone before (r, s)
    → LeavesTables before (conclude c r s)
unfolding conclude
conclude-LeavesTables before c (ok entity) s u =
    Reports-LeavesTables before _ (executed-Reports c entity s)
conclude-LeavesTables before c (err e) s u = inr u

if-LeavesTables :
    (before : Db) (b : Bool) (m n : Action ExecutionResult) (s : Session)
    → LeavesTables before (m s)
    → LeavesTables before (n s)
    → LeavesTables before ((if b then m else n) s)
if-LeavesTables before true m n s h k = h
if-LeavesTables before false m n s h k = k

module _ (fromisoformat : Text → Parsed) (driver_text : Json → Option Text) (daily : ℤ)
    (fresh : Uuid) (now : Moment) where
  attempt-LeavesTables :
      (c : ExecutionCommand) (s : Session)
      → IsQuiet s
      → LeavesTables s.committed (attempt fromisoformat driver_text daily fresh now c s)
  unfolding attempt dispatch
  attempt-LeavesTables c s q = conclude-LeavesTables s.committed c _ _ (
      (dispatch_by-AllOrNothing fromisoformat driver_text daily fresh now c.action_type
          c.resource_id c.parameters).at
        s q)

  -- Where no other transaction commits meanwhile, an execution that answers NOT_EXECUTABLE or
  -- EXECUTION_FAILED leaves the committed tables as they were, whatever the command, the decision
  -- and the failures.
  pub execute-LeavesTables :
      (decision : DecisionResult) (c : ExecutionCommand) (s : Session)
      → IsQuiet s
      → LeavesTables s.committed (execute fromisoformat driver_text daily fresh now decision c s)
  unfolding execute
  execute-LeavesTables decision c s q =
      if-LeavesTables s.committed (not (is_authorized decision.status)) _ _ s (inr refl) (
        if-LeavesTables s.committed (not (same_action c.action_type decision.action.action_type)) _
          _ s (inr refl) (attempt-LeavesTables c s q))
