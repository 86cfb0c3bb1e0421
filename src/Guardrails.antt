-- ===== src/Guardrails.antt =====
-- From a proposal of the language model to a decision: the actions of schemas/agent.py, the
-- resolver, the authorization and the safety policy. Texts of reasons and messages are left out.
pub mod Decision
pub mod Resolver
use personal_deadline_manage.Common.{Bool, true, false, Option, none, some}
use personal_deadline_manage.Model.{Uuid, Text}

pub data ActionType : Type 0 where
  create_task update_task delete_task create_reminder update_reminder delete_reminder : ActionType
  analyze_workload suggest_rescheduling : ActionType

-- `P` is the type of the action's parameters, which are carried through.
pub record ValidatedAction (P : Type 0) : Type 0 where
  pub action_type : ActionType
  pub resource_id : Option Uuid
  pub parameters : P

-- At least one of the two is given.
pub data ResourceReference : Type 0 where
  by_id : Uuid → Option Text → ResourceReference
  by_phrase : Text → ResourceReference

pub record ActionProposal (P : Type 0) : Type 0 where
  pub action_type : ActionType
  pub resource : Option ResourceReference
  pub parameters : P
