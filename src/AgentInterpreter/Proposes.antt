-- ===== src/AgentInterpreter/Proposes.antt =====
-- What the interpreter may answer.
use personal_deadline_manage.Common.{◌≡◌, refl, Bool, true, false, Option, none, some, [], ◌∷◌}
use personal_deadline_manage.Model.{Uuid, Text}
use personal_deadline_manage.Guardrails.{
  ActionType, ActionProposal, ResourceReference, by_id, by_phrase,
}
use personal_deadline_manage.Parameters.{Parameters}
use personal_deadline_manage.ActionValidator.{needs_no_resource, resource_fits}
use personal_deadline_manage.AgentInterpreter.{
  InterpretationResponseType, InterpretationOutput, ResponseType, AgentResponse, is_untargeted,
  to_agent_response, by_type, handle_action_proposed, handle_confirmation, propose_action,
  confirm_reference, build_resource_reference, reference, identified, confirm_given, propose_target,
  propose_for, propose,
}

-- The responses that carry no action: the handler has a status for each of these.
abbrev pub is_final : ResponseType → Bool
is_final ResponseType.clarification_required = true
is_final ResponseType.rejected = true
is_final ResponseType.conversation = true
is_final _ = false

-- A reference by id is one that the model's text spells.
abbrev pub IsGiven : (Text → Option Uuid) → Option Text → ResourceReference → Type 0
IsGiven parse_uuid given (by_id k phrase) = (t : Text) × (given ≡ some t) × (parse_uuid t ≡ some k)
IsGiven parse_uuid given (by_phrase phrase) = given ≡ none

abbrev pub AllGiven : (Text → Option Uuid) → Option Text → Option ResourceReference → Type 0
AllGiven parse_uuid given none = Unit
AllGiven parse_uuid given (some ref) = IsGiven parse_uuid given ref

-- A proposal of the model's action, with its parameters and the resource that it needs.
pub record Proposed (parse_uuid : Text → Option Uuid) (output : InterpretationOutput)
    (p : ActionProposal Parameters) : Type 0 where
  pub action : output.action_type ≡ some p.action_type
  pub parameters : p.parameters ≡ output.parameters
  pub resource : resource_fits (needs_no_resource p.action_type) p.resource ≡ true
  pub given : AllGiven parse_uuid output.resource_id p.resource

-- One of: a confirmation, a proposal, an answer that is final.
abbrev pub Answered :
    (Text → Option Uuid)
    → InterpretationOutput
    → ResponseType
    → Option (ActionProposal Parameters)
    → Option Uuid
    → Type 0
Answered parse_uuid output ResponseType.confirmation none k =
    output.response_type ≡ InterpretationResponseType.confirmation
Answered parse_uuid output ResponseType.action_proposed (some p) none = Proposed parse_uuid output p
Answered parse_uuid output type none none = is_final type ≡ true
Answered parse_uuid output type p k = ⊥

abbrev pub AnsweredBy : (Text → Option Uuid) → InterpretationOutput → AgentResponse → Type 0
AnsweredBy parse_uuid output r =
    Answered parse_uuid output r.response_type r.proposal r.confirmation_id

-- A reference that was built is usable and not made up.
pub record Usable (parse_uuid : Text → Option Uuid) (given : Option Text) (ref : ResourceReference)
    : Type 0 where
  pub fits : resource_fits false (some ref) ≡ true
  pub source : IsGiven parse_uuid given ref

abbrev pub AllUsable : (Text → Option Uuid) → Option Text → Option ResourceReference → Type 0
AllUsable parse_uuid given none = Unit
AllUsable parse_uuid given (some ref) = Usable parse_uuid given ref

module _ (parse_uuid : Text → Option Uuid) where
  identified-AllUsable :
      (t : Text) (k : Option Uuid) → parse_uuid t ≡ k → AllUsable parse_uuid (some t) (identified k)
  identified-AllUsable t none e = tt
  identified-AllUsable t (some k) e = record { fits = refl; source = (t, refl, e) }

  reference-AllUsable :
      (given description : Option Text)
      → AllUsable parse_uuid given (reference parse_uuid given description)
  reference-AllUsable (some t) description = identified-AllUsable t (parse_uuid t) refl
  reference-AllUsable none none = tt
  reference-AllUsable none (some []) = tt
  reference-AllUsable none (some (c ∷ cs)) = record { fits = refl; source = refl }

  module _ (output : InterpretationOutput) where
    propose-Proposed :
        (action : ActionType)
        → output.action_type ≡ some action
        → needs_no_resource action ≡ true
        → AnsweredBy parse_uuid output (propose output action none)
    propose-Proposed action is free = record {
      action = is;
      parameters = refl;
      resource = rw free refl;
      given = tt;
    }

    propose_for-AnsweredBy :
        (action : ActionType) (ref : Option ResourceReference)
        → output.action_type ≡ some action
        → needs_no_resource action ≡ false
        → AllUsable parse_uuid output.resource_id ref
        → AnsweredBy parse_uuid output (propose_for output action ref)
    propose_for-AnsweredBy action none is bound u = refl
    propose_for-AnsweredBy action (some ref) is bound u = record {
      action = is;
      parameters = refl;
      resource = rw bound u.fits;
      given = u.source;
    }

    propose_target-AnsweredBy :
        (action : ActionType) (ref : Option ResourceReference)
        → output.action_type ≡ some action
        → AllUsable parse_uuid output.resource_id ref
        → AnsweredBy parse_uuid output (propose_target output action (is_untargeted action) ref)
    propose_target-AnsweredBy ActionType.create_task ref is u = propose-Proposed _ is refl
    propose_target-AnsweredBy ActionType.update_task ref is u =
        propose_for-AnsweredBy _ ref is refl u
    propose_target-AnsweredBy ActionType.delete_task ref is u =
        propose_for-AnsweredBy _ ref is refl u
    propose_target-AnsweredBy ActionType.create_reminder ref is u =
        propose_for-AnsweredBy _ ref is refl u
    propose_target-AnsweredBy ActionType.update_reminder ref is u =
        propose_for-AnsweredBy _ ref is refl u
    propose_target-AnsweredBy ActionType.delete_reminder ref is u =
        propose_for-AnsweredBy _ ref is refl u
    propose_target-AnsweredBy ActionType.analyze_workload ref is u = propose-Proposed _ is refl
    propose_target-AnsweredBy ActionType.suggest_rescheduling ref is u = propose-Proposed _ is refl

    propose_action-AnsweredBy :
        (action : Option ActionType)
        → output.action_type ≡ action
        → AnsweredBy parse_uuid output (propose_action parse_uuid output action)
    unfolding build_resource_reference
    propose_action-AnsweredBy none is = refl
    propose_action-AnsweredBy (some action) is =
        propose_target-AnsweredBy action _ is
          (reference-AllUsable output.resource_id output.resource_description)

    confirm_given-AnsweredBy :
        (k : Option Uuid)
        → output.response_type ≡ InterpretationResponseType.confirmation
        → AnsweredBy parse_uuid output (confirm_given k)
    confirm_given-AnsweredBy none is = refl
    confirm_given-AnsweredBy (some k) is = is

    confirm_reference-AnsweredBy :
        (t : Option Text)
        → output.response_type ≡ InterpretationResponseType.confirmation
        → AnsweredBy parse_uuid output (confirm_reference parse_uuid t)
    confirm_reference-AnsweredBy none is = is
    confirm_reference-AnsweredBy (some t) is = confirm_given-AnsweredBy (parse_uuid t) is

    by_type-AnsweredBy :
        (type : InterpretationResponseType)
        → output.response_type ≡ type
        → AnsweredBy parse_uuid output (by_type parse_uuid output type)
    unfolding handle_action_proposed handle_confirmation
    by_type-AnsweredBy InterpretationResponseType.action_proposed is =
        propose_action-AnsweredBy output.action_type refl
    by_type-AnsweredBy InterpretationResponseType.confirmation is =
        confirm_reference-AnsweredBy output.resource_id is
    by_type-AnsweredBy InterpretationResponseType.needs_clarification is = refl
    by_type-AnsweredBy InterpretationResponseType.rejected is = refl
    by_type-AnsweredBy InterpretationResponseType.conversation is = refl

  -- Each output of the language model becomes one of these: a confirmation, from an output of that
  -- type; a proposal of the output's action with its parameters and a resource exactly where the
  -- validator wants one, whose id is the one that the output spells; or a response without a
  -- proposal that is a clarification, a rejection or a conversation.
  pub to_agent_response-AnsweredBy :
      (output : InterpretationOutput)
      → AnsweredBy parse_uuid output (to_agent_response parse_uuid output)
  unfolding to_agent_response
  to_agent_response-AnsweredBy output = by_type-AnsweredBy output output.response_type refl
