-- ===== src/Guardrails/Resolver.antt =====
-- services/resource_resolver.py. `ilike` is the database's match of a name with a phrase.
use personal_deadline_manage.Common.{
  ◌≡◌, ◌≢◌, refl, Bool, true, false, Option, none, some, List, [], ◌∷◌, map, filter, arith,
}
use personal_deadline_manage.Common.Order.{Order, nat_order, text_order}
use personal_deadline_manage.Common.Sort.{sort_by, length-sort_by, insert_by}
use personal_deadline_manage.Model.{Uuid, Text, Task, Reminder}
use personal_deadline_manage.Store.{Action, Db, Result, ok, pure, statement, open_session, ◌>>=◌}
use personal_deadline_manage.Store.TaskRepository
use personal_deadline_manage.Store.TaskRepository.{task_id}
use personal_deadline_manage.Store.ReminderRepository
use personal_deadline_manage.Store.ReminderRepository.{reminder_id, parent_matches}
use personal_deadline_manage.Guardrails.{
  ActionType, ValidatedAction, ResourceReference, by_id, by_phrase, ActionProposal,
}

pub data Resolution (P : Type 0) : Type 0 where
  clarification : Resolution P
  resolved : ValidatedAction P → Resolution P

-- What a phrase names, for an action.
pub data Target : Type 0 where
  task reminder nothing : Target

abbrev pub target : ActionType → Target
target ActionType.update_task = task
target ActionType.delete_task = task
target ActionType.create_reminder = task
target ActionType.update_reminder = reminder
target ActionType.delete_reminder = reminder
target _ = nothing

-- CREATE_TASK and ANALYZE_WORKLOAD take no resource, every other action needs one.
abbrev pub takes_none : ActionType → Bool
takes_none ActionType.create_task = true
takes_none ActionType.analyze_workload = true
takes_none _ = false

module _ {P : Type 0} where
  abbrev pub resolve_to : ActionProposal P → Option Uuid → Resolution P
  resolve_to p k =
      resolved (record { action_type = p.action_type; resource_id = k; parameters = p.parameters })

  -- None or several matches have to be clarified.
  abbrev pub only_match : {R : Type 0} → (R → Uuid) → ActionProposal P → List R → Resolution P
  only_match id p [] = clarification
  only_match id p (r ∷ []) = resolve_to p (some (id r))
  only_match id p (r ∷ q ∷ rs) = clarification

module _ (ilike : Text → Text → Bool) {P : Type 0} where
  unfoldable pub resolve_phrase : ActionProposal P → Text → Target → Action (Resolution P)
  unfolding TaskRepository.find_by_name ReminderRepository.find_by_task_name
  resolve_phrase p phrase task = do
    matches ← TaskRepository.find_by_name ilike phrase
    pure (only_match task_id p matches)
  resolve_phrase p phrase reminder = do
    matches ← ReminderRepository.find_by_task_name ilike phrase
    pure (only_match reminder_id p matches)
  resolve_phrase p phrase nothing = pure clarification

  unfoldable pub resolve_reference :
      ActionProposal P → Bool → Option ResourceReference → Action (Resolution P)
  unfolding resolve_phrase
  resolve_reference p true none = pure (resolve_to p none)
  resolve_reference p true (some ref) = pure clarification
  resolve_reference p false none = pure clarification
  resolve_reference p false (some (by_id k phrase)) = pure (resolve_to p (some k))
  resolve_reference p false (some (by_phrase phrase)) =
      resolve_phrase p phrase (target p.action_type)

  unfoldable pub resolve : ActionProposal P → Action (Resolution P)
  unfolding resolve_reference
  resolve p = resolve_reference p (takes_none p.action_type) p.resource

needs :
    (action : ActionType)
    → action ≢ ActionType.create_task
    → action ≢ ActionType.analyze_workload
    → takes_none action ≡ false
needs ActionType.create_task h g = absurd (h refl)
needs ActionType.analyze_workload h g = absurd (g refl)
needs ActionType.update_task h g = refl
needs ActionType.delete_task h g = refl
needs ActionType.create_reminder h g = refl
needs ActionType.update_reminder h g = refl
needs ActionType.delete_reminder h g = refl
needs ActionType.suggest_rescheduling h g = refl

-- The ids of the rows that a phrase names for an action: tasks by their own names, reminders by
-- the names of their tasks.
module _ (ilike : Text → Text → Bool) (phrase : Text) (db : Db) where
  abbrev pub tasks_named : List Uuid
  tasks_named = map task_id (filter (λ (t : Task). ilike phrase t.task_name) db.tasks)

  abbrev pub reminders_named : List Uuid
  reminders_named = map reminder_id (filter (parent_matches ilike phrase db.tasks) db.reminders)

  -- An update or a deletion names what it changes, and a new reminder its task.
  abbrev pub named : ActionType → List Uuid
  named ActionType.create_task = []
  named ActionType.update_task = tasks_named
  named ActionType.delete_task = tasks_named
  named ActionType.create_reminder = tasks_named
  named ActionType.update_reminder = reminders_named
  named ActionType.delete_reminder = reminders_named
  named ActionType.analyze_workload = []
  named ActionType.suggest_rescheduling = []

module _ {P : Type 0} (p : ActionProposal P) where
  -- The resolution by the ids of the rows that are named: the action on that row if there is one
  -- alone, a clarification otherwise.
  abbrev pub IsResolved : List Uuid → Resolution P → Type 0
  IsResolved [] r = r ≡ clarification
  IsResolved (k ∷ []) r =
      r
      ≡ resolved
          (record { action_type = p.action_type; resource_id = some k; parameters = p.parameters })
  IsResolved (k ∷ j ∷ ks) r = r ≡ clarification

  only_match-IsResolved :
      {R : Type 0} (id : R → Uuid) (rs : List R) → IsResolved (map id rs) (only_match id p rs)
  only_match-IsResolved id [] = refl
  only_match-IsResolved id (r ∷ []) = refl
  only_match-IsResolved id (r ∷ q ∷ rs) = refl

  only_match-sort_by :
      {R K : Type 0} ⦃o : Order K⦄ (key : R → K) (id : R → Uuid) (rs : List R)
      → only_match id p (sort_by key rs) ≡ only_match id p rs
  only_match-sort_by key id [] = unfold sort_by in refl
  only_match-sort_by key id (r ∷ []) = unfold sort_by insert_by in refl
  only_match-sort_by key id (r ∷ q ∷ rs) = ground (arith, length-sort_by key (r ∷ q ∷ rs))

module _ (ilike : Text → Text → Bool) {P : Type 0} (p : ActionProposal P) (phrase : Text)
    (db : Db) where
  -- The resolution of the phrase, where it is looked up there.
  abbrev found_in : Target → Result (Resolution P)
  found_in t = (resolve_phrase ilike p phrase t (open_session db [])).0

  Found : List Uuid → Result (Resolution P) → Type 0
  Found ks r = (a : Resolution P) × (r ≡ ok a) × IsResolved p ks a

  by_task_name : Found (tasks_named ilike phrase db) (found_in task)
  unfolding Found resolve_phrase statement
  by_task_name =
      let rs = filter (λ (t : Task). ilike phrase t.task_name) db.tasks in
      (
        only_match task_id p rs,
        rw (only_match-sort_by p (λ (t : Task). t.task_name) task_id rs) refl,
        only_match-IsResolved p task_id rs,
      )

  by_parent_name : Found (reminders_named ilike phrase db) (found_in reminder)
  unfolding Found resolve_phrase statement
  by_parent_name =
      let rs = filter (parent_matches ilike phrase db.tasks) db.reminders in
      (
        only_match reminder_id p rs,
        rw (only_match-sort_by p (λ (r : Reminder). r.remind_at) reminder_id rs) refl,
        only_match-IsResolved p reminder_id rs,
      )

  by_action :
      (action : ActionType) → Found (named ilike phrase db action) (found_in (target action))
  by_action ActionType.create_task = unfold Found resolve_phrase in (clarification, refl, refl)
  by_action ActionType.update_task = by_task_name
  by_action ActionType.delete_task = by_task_name
  by_action ActionType.create_reminder = by_task_name
  by_action ActionType.update_reminder = by_parent_name
  by_action ActionType.delete_reminder = by_parent_name
  by_action ActionType.analyze_workload = unfold Found resolve_phrase in (clarification, refl, refl)
  by_action ActionType.suggest_rescheduling =
      unfold Found resolve_phrase in (clarification, refl, refl)

  -- An undisturbed `resolve` of an action other than CREATE_TASK and ANALYZE_WORKLOAD, by a
  -- phrase, gives the action on the only row that the phrase names, and asks for clarification
  -- where none or several are named; the rows are the tasks with a matching name for UPDATE_TASK,
  -- DELETE_TASK and CREATE_REMINDER, the reminders of these tasks for UPDATE_REMINDER and
  -- DELETE_REMINDER, and none for SUGGEST_RESCHEDULING.
  pub resolve-named :
      p.resource ≡ some (by_phrase phrase)
      → p.action_type ≢ ActionType.create_task
      → p.action_type ≢ ActionType.analyze_workload
      → (r : Resolution P) × ((resolve ilike p (open_session db [])).0 ≡ ok r)
        × IsResolved p (named ilike phrase db p.action_type) r
  unfolding resolve resolve_reference Found
  resolve-named by not_task not_analysis =
      rw (by, needs p.action_type not_task not_analysis) (by_action p.action_type)
