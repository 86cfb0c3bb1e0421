-- ===== src/Guardrails/Decision.antt =====
-- services/authorization_service.py, guardrails/safety_policy.py and
-- guardrails/decision_service.py.
use personal_deadline_manage.Common.{
  ◌≡◌, ◌⊎◌, inl, inr, Bool-cases, refl, Bool, true, false, ◌||◌, Option, none, some, ◌==◌,
  if◌then◌else◌, arith,
}
use personal_deadline_manage.Model.{Uuid}
use personal_deadline_manage.Guardrails.{ActionType}

pub data AuthorizationStatus : Type 0 where
  authorized denied not_configured : AuthorizationStatus

pub data DecisionStatus : Type 0 where
  authorized denied not_configured confirmation_required : DecisionStatus

-- The settings; `default_user_id` is the UUID whose text is configured, if it is the text of one.
pub record AuthorizationService : Type 0 where
  pub default_user_id : Option Uuid
  pub single_user_mode : Bool

abbrev pub is_default_user : Option Uuid → Option Uuid → Bool
is_default_user (some actor) (some user) = actor == user
is_default_user none user = false
is_default_user (some actor) none = false

-- `context` is the actor, if there is one.
unfoldable pub authorize : AuthorizationService → Option Uuid → AuthorizationStatus
authorize service context =
    if service.single_user_mode
    then AuthorizationStatus.authorized
    else if is_default_user context service.default_user_id
    then AuthorizationStatus.authorized
    else AuthorizationStatus.not_configured

abbrev pub is_supported : ActionType → Bool
is_supported ActionType.create_task = true
is_supported ActionType.update_task = true
is_supported ActionType.delete_task = true
is_supported ActionType.create_reminder = true
is_supported ActionType.update_reminder = true
is_supported ActionType.delete_reminder = true
is_supported ActionType.analyze_workload = true
is_supported ActionType.suggest_rescheduling = true

abbrev pub is_destructive : ActionType → Bool
is_destructive ActionType.delete_task = true
is_destructive ActionType.delete_reminder = true
is_destructive _ = false

unfoldable pub evaluate : ActionType → DecisionStatus
evaluate action =
    if is_supported action
    then if is_destructive action
      then DecisionStatus.confirmation_required
      else DecisionStatus.authorized
    else DecisionStatus.denied

abbrev pub decide_by : AuthorizationStatus → DecisionStatus → DecisionStatus
decide_by AuthorizationStatus.not_configured policy = DecisionStatus.not_configured
decide_by AuthorizationStatus.denied policy = DecisionStatus.denied
decide_by AuthorizationStatus.authorized policy = policy

unfoldable pub decide : AuthorizationService → ActionType → Option Uuid → DecisionStatus
unfolding authorize evaluate
decide service action context = decide_by (authorize service context) (evaluate action)

-- The decision, from who acts and what is done.
abbrev pub permitted : AuthorizationService → Option Uuid → Bool
permitted service context =
    service.single_user_mode || is_default_user context service.default_user_id

abbrev pub judgement : Bool → Bool → DecisionStatus
judgement false destructive = DecisionStatus.not_configured
judgement true true = DecisionStatus.confirmation_required
judgement true false = DecisionStatus.authorized

evaluate_supported :
    (action : ActionType)
    → evaluate action ≡ (
        if is_destructive action
        then DecisionStatus.confirmation_required
        else DecisionStatus.authorized)
unfolding evaluate
evaluate_supported ActionType.create_task = refl
evaluate_supported ActionType.update_task = refl
evaluate_supported ActionType.delete_task = refl
evaluate_supported ActionType.create_reminder = refl
evaluate_supported ActionType.update_reminder = refl
evaluate_supported ActionType.delete_reminder = refl
evaluate_supported ActionType.analyze_workload = refl
evaluate_supported ActionType.suggest_rescheduling = refl

-- The decision, by who is allowed and whether the action deletes.
pub decide-judgement :
    (service : AuthorizationService) (action : ActionType) (context : Option Uuid)
    → decide service action context ≡ judgement (permitted service context) (is_destructive action)
unfolding decide authorize
decide-judgement service action context = ground (arith, evaluate_supported action)

-- Who may act at all: anyone in single-user mode, and the default user.
abbrev pub MayAct : AuthorizationService → Option Uuid → Type 0
MayAct service context =
    (service.single_user_mode ≡ true)
    ⊎ ((user : Uuid) × (context ≡ some user) × (service.default_user_id ≡ some user))

abbrev pub Deletes : ActionType → Type 0
Deletes action = (action ≡ ActionType.delete_task) ⊎ (action ≡ ActionType.delete_reminder)

default_user :
    (context user : Option Uuid)
    → is_default_user context user ≡ true
    → (k : Uuid) × (context ≡ some k) × (user ≡ some k)
default_user (some a) (some b) h = (a, refl, ground arith)
default_user none user h = absurd (ground arith)
default_user (some a) none h = absurd (ground arith)

permitted-MayAct :
    (service : AuthorizationService) (context : Option Uuid)
    → permitted service context ≡ true
    → MayAct service context
permitted-MayAct service context h = elim (Bool-cases service.single_user_mode) [
  | inl single ↦ inl single
  | inr multi ↦ inr (default_user context service.default_user_id (ground arith))
]

MayAct-permitted :
    (service : AuthorizationService) (context : Option Uuid)
    → MayAct service context
    → permitted service context ≡ true
MayAct-permitted service context (inl single) = rw single refl
MayAct-permitted service context (inr (k, acts, is_default)) = ground (arith, acts, is_default)

destructive-Deletes : (action : ActionType) → is_destructive action ≡ true → Deletes action
destructive-Deletes ActionType.delete_task h = inl refl
destructive-Deletes ActionType.delete_reminder h = inr refl
destructive-Deletes ActionType.create_task h = absurd (ground arith)
destructive-Deletes ActionType.update_task h = absurd (ground arith)
destructive-Deletes ActionType.create_reminder h = absurd (ground arith)
destructive-Deletes ActionType.update_reminder h = absurd (ground arith)
destructive-Deletes ActionType.analyze_workload h = absurd (ground arith)
destructive-Deletes ActionType.suggest_rescheduling h = absurd (ground arith)

Deletes-destructive : (action : ActionType) → Deletes action → is_destructive action ≡ true
Deletes-destructive action (inl is) = rw is refl
Deletes-destructive action (inr is) = rw is refl

-- What each decision says of the request.
abbrev pub Says : Type 0 → Type 0 → DecisionStatus → Type 0
Says may deletes DecisionStatus.authorized = may × ¬ deletes
Says may deletes DecisionStatus.confirmation_required = may × deletes
Says may deletes DecisionStatus.not_configured = ¬ may
Says may deletes DecisionStatus.denied = ⊥

-- The decision on an action is AUTHORIZED only where single-user mode is on or the actor is the
-- default user, and the action is neither DELETE_TASK nor DELETE_REMINDER; CONFIRMATION_REQUIRED
-- only where they may act and it is one of the two; NOT_CONFIGURED only where they may not act;
-- and it is never DENIED.
pub decide-Says :
    (service : AuthorizationService) (action : ActionType) (context : Option Uuid)
    → Says (MayAct service context) (Deletes action) (decide service action context)
decide-Says service action context =
    rw (decide-judgement service action context) (elim (Bool-cases (permitted service context)) [
      | inr refused ↦
          rw refused (λ may. ground (arith, refused, MayAct-permitted service context may))
      | inl allowed ↦ elim (Bool-cases (is_destructive action)) [
        | inl deletes ↦
            rw (allowed, deletes)
              ((permitted-MayAct service context allowed, destructive-Deletes action deletes))
        | inr keeps ↦
            rw (allowed, keeps)
              ((
                permitted-MayAct service context allowed,
                λ d. ground (arith, keeps, Deletes-destructive action d),
              ))
      ]
    ])
