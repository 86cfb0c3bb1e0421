-- ===== src/ActionValidator/Accepts.antt =====
-- Which proposals are valid, and what becomes of them in the resolver.
use personal_deadline_manage.Common.{
  false, ◌≡◌, refl, ◌≤◌, Bool, true, Option, none, some, [], ◌∷◌, ◌≢◌, inl, inr, Option-cases,
  arith,
}
use personal_deadline_manage.Model.{Text, Moment}
use personal_deadline_manage.Store.{Result, ok, err, Session}
use personal_deadline_manage.DateRange.{DateRangeExpression}
use personal_deadline_manage.Guardrails.{
  ActionType, ResourceReference, by_id, by_phrase, ActionProposal,
}
use personal_deadline_manage.Guardrails.Resolver.{resolve, resolve_reference, clarification}
use personal_deadline_manage.Parameters.{
  Json, Name, task_name, deadline, remind_at, get, has_key, date_range_expression, explicit_start,
  explicit_end, Parameters, get_or_null, expression_of, Parsed, parse_iso_datetime,
}
use personal_deadline_manage.ActionValidator.{
  ValidationStatus, needs_no_resource, resource_fits, has_required, is_analysis, in_order,
  validate_bounds, validate_expression, validate_analyze_workload, validate,
}

-- A resource that can be looked up: an id, or a phrase that is not empty.
abbrev pub IsUsable : Option ResourceReference → Type 0
IsUsable none = ⊥
IsUsable (some (by_id k phrase)) = Unit
IsUsable (some (by_phrase phrase)) = phrase ≢ []

-- What an action wants as its resource.
abbrev pub ResourceFor : ActionType → Option ResourceReference → Type 0
ResourceFor ActionType.create_task ref = ref ≡ none
ResourceFor ActionType.analyze_workload ref = ref ≡ none
ResourceFor ActionType.suggest_rescheduling ref = ref ≡ none
ResourceFor ActionType.update_task ref = IsUsable ref
ResourceFor ActionType.delete_task ref = IsUsable ref
ResourceFor ActionType.create_reminder ref = IsUsable ref
ResourceFor ActionType.update_reminder ref = IsUsable ref
ResourceFor ActionType.delete_reminder ref = IsUsable ref

abbrev pub Given : Name → Parameters → Type 0
Given n ps = (v : Json) × (get n ps ≡ some v)

-- The parameters that an action must have.
abbrev pub RequiredBy : ActionType → Parameters → Type 0
RequiredBy ActionType.create_task ps = Given task_name ps × Given deadline ps
RequiredBy ActionType.create_reminder ps = Given remind_at ps
RequiredBy ActionType.analyze_workload ps = Given date_range_expression ps
RequiredBy ActionType.suggest_rescheduling ps = Given date_range_expression ps
RequiredBy ActionType.update_task ps = ps ≢ []
RequiredBy ActionType.update_reminder ps = ps ≢ []
RequiredBy ActionType.delete_task ps = Unit
RequiredBy ActionType.delete_reminder ps = Unit

no_resource : (ref : Option ResourceReference) → resource_fits true ref ≡ true → ref ≡ none
no_resource none h = refl
no_resource (some r) h = absurd (ground arith)

usable : (ref : Option ResourceReference) → resource_fits false ref ≡ true → IsUsable ref
usable none h = absurd (ground arith)
usable (some (by_id k phrase)) h = tt
usable (some (by_phrase [])) h = absurd (ground arith)
usable (some (by_phrase (c ∷ cs))) h = λ e. ground arith

resource_valid :
    (action : ActionType) (ref : Option ResourceReference)
    → resource_fits (needs_no_resource action) ref ≡ true
    → ResourceFor action ref
resource_valid ActionType.create_task ref h = no_resource ref h
resource_valid ActionType.analyze_workload ref h = no_resource ref h
resource_valid ActionType.suggest_rescheduling ref h = no_resource ref h
resource_valid ActionType.update_task ref h = usable ref h
resource_valid ActionType.delete_task ref h = usable ref h
resource_valid ActionType.create_reminder ref h = usable ref h
resource_valid ActionType.update_reminder ref h = usable ref h
resource_valid ActionType.delete_reminder ref h = usable ref h

given : (n : Name) (ps : Parameters) → has_key n ps ≡ true → Given n ps
given n ps h = elim (Option-cases (get n ps)) [
  | inl gone ↦ absurd (ground (arith, gone, h))
  | inr found ↦ found
]

required_valid :
    (action : ActionType) (ps : Parameters) → has_required action ps ≡ true → RequiredBy action ps
required_valid ActionType.create_task ps h =
    (given task_name ps (ground arith), given deadline ps (ground arith))
required_valid ActionType.create_reminder ps h = given remind_at ps h
required_valid ActionType.analyze_workload ps h = given date_range_expression ps h
required_valid ActionType.suggest_rescheduling ps h = given date_range_expression ps h
required_valid ActionType.update_task [] h = absurd (ground arith)
required_valid ActionType.update_task (p ∷ ps) h = λ e. ground arith
required_valid ActionType.update_reminder [] h = absurd (ground arith)
required_valid ActionType.update_reminder (p ∷ ps) h = λ e. ground arith
required_valid ActionType.delete_task ps h = tt
required_valid ActionType.delete_reminder ps h = tt

module _ (fromisoformat : Text → Parsed) where
  -- The bounds of an explicit range are moments in order.
  abbrev pub Ordered : Json → Json → Type 0
  Ordered start end =
      (s : Moment) × (e : Moment) × (parse_iso_datetime fromisoformat start ≡ ok s)
      × (parse_iso_datetime fromisoformat end ≡ ok e)
      × (s ≤ e)

  abbrev pub HasRange : Parameters → Option DateRangeExpression → Type 0
  HasRange ps none = ⊥
  HasRange ps (some DateRangeExpression.explicit_range) =
      Ordered (get_or_null explicit_start ps) (get_or_null explicit_end ps)
  HasRange ps (some e) = Unit

  abbrev pub RangeGiven : Parameters → Type 0
  RangeGiven ps = HasRange ps (expression_of (get_or_null date_range_expression ps))

  -- The analyses name a range.
  abbrev pub RangeFor : ActionType → Parameters → Type 0
  RangeFor ActionType.analyze_workload ps = RangeGiven ps
  RangeFor ActionType.suggest_rescheduling ps = RangeGiven ps
  RangeFor _ ps = Unit

  -- A proposal with all that its action takes.
  pub record IsComplete (p : ActionProposal Parameters) : Type 0 where
    pub resource : ResourceFor p.action_type p.resource
    pub required : RequiredBy p.action_type p.parameters
    pub range : RangeFor p.action_type p.parameters

  analysis_valid :
      (action : ActionType) (ps : Parameters)
      → (is_analysis action ≡ true → RangeGiven ps)
      → RangeFor action ps
  analysis_valid ActionType.analyze_workload ps h = h refl
  analysis_valid ActionType.suggest_rescheduling ps h = h refl
  analysis_valid ActionType.create_task ps h = tt
  analysis_valid ActionType.update_task ps h = tt
  analysis_valid ActionType.delete_task ps h = tt
  analysis_valid ActionType.create_reminder ps h = tt
  analysis_valid ActionType.update_reminder ps h = tt
  analysis_valid ActionType.delete_reminder ps h = tt

  pub analysis_range :
      (action : ActionType) (ps : Parameters)
      → RangeFor action ps
      → is_analysis action ≡ true
      → RangeGiven ps
  analysis_range ActionType.analyze_workload ps r h = r
  analysis_range ActionType.suggest_rescheduling ps r h = r
  analysis_range ActionType.create_task ps r h = absurd (ground arith)
  analysis_range ActionType.update_task ps r h = absurd (ground arith)
  analysis_range ActionType.delete_task ps r h = absurd (ground arith)
  analysis_range ActionType.create_reminder ps r h = absurd (ground arith)
  analysis_range ActionType.update_reminder ps r h = absurd (ground arith)
  analysis_range ActionType.delete_reminder ps r h = absurd (ground arith)

  in_order_valid :
      (start end : Result Moment)
      → in_order start end ≡ ok ValidationStatus.valid
      → (s : Moment) × (e : Moment) × (start ≡ ok s) × (end ≡ ok e) × (s ≤ e)
  in_order_valid (ok s) (ok e) h = (s, e, refl, refl, ground arith)
  in_order_valid (ok s) (err e) h = absurd (ground arith)
  in_order_valid (err e) end h = absurd (ground arith)

  bounds_valid :
      (start end : Json)
      → validate_bounds fromisoformat start end ≡ ok ValidationStatus.valid
      → Ordered start end
  unfolding validate_bounds
  bounds_valid start end h =
      in_order_valid (parse_iso_datetime fromisoformat start) (parse_iso_datetime fromisoformat end)
        (ground arith)

  expression_valid :
      (ps : Parameters) (e : Option DateRangeExpression)
      → validate_expression fromisoformat ps e ≡ ok ValidationStatus.valid
      → HasRange ps e
  expression_valid ps none h = ground arith
  expression_valid ps (some DateRangeExpression.explicit_range) h = bounds_valid _ _ h
  expression_valid ps (some DateRangeExpression.today) h = tt
  expression_valid ps (some DateRangeExpression.tomorrow) h = tt
  expression_valid ps (some DateRangeExpression.this_week) h = tt
  expression_valid ps (some DateRangeExpression.next_week) h = tt
  expression_valid ps (some DateRangeExpression.this_month) h = tt
  expression_valid ps (some DateRangeExpression.next_month) h = tt

  -- A proposal that `validate` finds VALID has no resource for CREATE_TASK, ANALYZE_WORKLOAD and
  -- SUGGEST_RESCHEDULING, and an id or a phrase that is not empty for every other action; it has
  -- the name and the deadline of a new task, the time of a new reminder, the range of an analysis,
  -- and at least one parameter of an update; and an analysis names a known range, with bounds that
  -- parse and are in order where the range is explicit.
  pub validate-IsComplete :
      (p : ActionProposal Parameters)
      → validate fromisoformat p ≡ ok ValidationStatus.valid
      → IsComplete p
  unfolding validate validate_analyze_workload
  validate-IsComplete p h = record {
    resource = resource_valid p.action_type p.resource (ground arith);
    required = required_valid p.action_type p.parameters (ground arith);
    range =
        analysis_valid p.action_type p.parameters
          (λ a. expression_valid p.parameters _ (ground (arith, a)));
  }

module _ (fromisoformat : Text → Parsed) (ilike : Text → Text → Bool) where
  -- A proposal of SUGGEST_RESCHEDULING that `validate` finds VALID always ends in a clarification
  -- of the resolver, which reads and writes nothing.
  pub resolve_suggestion :
      (p : ActionProposal Parameters) (s : Session)
      → validate fromisoformat p ≡ ok ValidationStatus.valid
      → p.action_type ≡ ActionType.suggest_rescheduling
      → resolve ilike p s ≡ (ok clarification, s)
  unfolding resolve resolve_reference
  resolve_suggestion p s h is =
      let none_given : p.resource ≡ none =
        rw is at ((validate-IsComplete fromisoformat p h).resource) in
      rw (is, none_given) refl
