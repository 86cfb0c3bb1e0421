-- ===== src/AgentInterpreter.antt =====
-- services/agent_interpreter.py, from the output of the language model to a proposal.
-- `parse_uuid` is the constructor of the standard library's UUID, `none` its ValueError; the texts
-- of messages are left out.
pub mod Proposes
use personal_deadline_manage.Common.{Bool, true, false, Option, none, some, List, [], ◌∷◌}
use personal_deadline_manage.Model.{Uuid, Text}
use personal_deadline_manage.Guardrails.{
  ActionType, ResourceReference, by_id, by_phrase, ActionProposal,
}
use personal_deadline_manage.Parameters.{Parameters}

pub data InterpretationResponseType : Type 0 where
  action_proposed needs_clarification confirmation rejected conversation :
      InterpretationResponseType

pub record InterpretationOutput : Type 0 where
  pub response_type : InterpretationResponseType
  pub action_type : Option ActionType
  pub resource_id : Option Text
  pub resource_description : Option Text
  pub parameters : Parameters

pub data ResponseType : Type 0 where
  action_proposed clarification_required confirmation_required : ResponseType
  confirmation rejected conversation : ResponseType

pub record AgentResponse : Type 0 where
  pub response_type : ResponseType
  pub proposal : Option (ActionProposal Parameters)
  pub confirmation_id : Option Uuid

-- A response without a proposal.
abbrev pub plain : ResponseType → AgentResponse
plain type = record { response_type = type; proposal = none; confirmation_id = none }

abbrev pub response_type_map : InterpretationResponseType → ResponseType
response_type_map InterpretationResponseType.action_proposed = ResponseType.action_proposed
response_type_map InterpretationResponseType.needs_clarification =
    ResponseType.clarification_required
response_type_map InterpretationResponseType.confirmation = ResponseType.confirmation
response_type_map InterpretationResponseType.rejected = ResponseType.rejected
response_type_map InterpretationResponseType.conversation = ResponseType.conversation

-- The actions without a target resource.
abbrev pub is_untargeted : ActionType → Bool
is_untargeted ActionType.create_task = true
is_untargeted ActionType.analyze_workload = true
is_untargeted ActionType.suggest_rescheduling = true
is_untargeted _ = false

abbrev pub propose : InterpretationOutput → ActionType → Option ResourceReference → AgentResponse
propose output action resource = record {
  response_type = ResponseType.action_proposed;
  proposal =
      some (record { action_type = action; resource = resource; parameters = output.parameters });
  confirmation_id = none;
}

abbrev pub confirming : Option Uuid → AgentResponse
confirming k = record {
  response_type = ResponseType.confirmation;
  proposal = none;
  confirmation_id = k;
}

-- `none` is `_ResourceError`.
abbrev pub described : Option Text → Option ResourceReference
described none = none
described (some []) = none
described (some (c ∷ cs)) = some (by_phrase (c ∷ cs))

abbrev pub identified : Option Uuid → Option ResourceReference
identified none = none
identified (some k) = some (by_id k none)

abbrev pub propose_for :
    InterpretationOutput → ActionType → Option ResourceReference → AgentResponse
propose_for output action none = plain ResponseType.clarification_required
propose_for output action (some ref) = propose output action (some ref)

abbrev pub propose_target :
    InterpretationOutput → ActionType → Bool → Option ResourceReference → AgentResponse
propose_target output action true ref = propose output action none
propose_target output action false ref = propose_for output action ref

abbrev pub confirm_given : Option Uuid → AgentResponse
confirm_given none = plain ResponseType.clarification_required
confirm_given (some k) = confirming (some k)

module _ (parse_uuid : Text → Option Uuid) where
  abbrev pub reference : Option Text → Option Text → Option ResourceReference
  reference (some t) description = identified (parse_uuid t)
  reference none description = described description

  unfoldable pub build_resource_reference : InterpretationOutput → Option ResourceReference
  build_resource_reference output = reference output.resource_id output.resource_description

  abbrev pub propose_action : InterpretationOutput → Option ActionType → AgentResponse
  unfolding build_resource_reference
  propose_action output none = plain ResponseType.clarification_required
  propose_action output (some action) =
      propose_target output action (is_untargeted action) (build_resource_reference output)

  unfoldable pub handle_action_proposed : InterpretationOutput → AgentResponse
  unfolding build_resource_reference
  handle_action_proposed output = propose_action output output.action_type

  abbrev pub confirm_reference : Option Text → AgentResponse
  confirm_reference none = confirming none
  confirm_reference (some t) = confirm_given (parse_uuid t)

  unfoldable pub handle_confirmation : InterpretationOutput → AgentResponse
  handle_confirmation output = confirm_reference output.resource_id

  abbrev pub by_type : InterpretationOutput → InterpretationResponseType → AgentResponse
  unfolding handle_action_proposed handle_confirmation
  by_type output InterpretationResponseType.action_proposed = handle_action_proposed output
  by_type output InterpretationResponseType.confirmation = handle_confirmation output
  by_type output type = plain (response_type_map type)

  unfoldable pub to_agent_response : InterpretationOutput → AgentResponse
  unfolding handle_action_proposed handle_confirmation
  to_agent_response output = by_type output output.response_type
