-- ===== src/Tests/Deciding.antt =====
-- Decisions on concrete proposals.
use personal_deadline_manage.Common.{
  arith, ◌≡◌, refl, Bool, true, false, some, List, [], ◌∷◌, ◌==◌, ◌&&◌,
}
use personal_deadline_manage.Model.{Text}
use personal_deadline_manage.Store.{ok, open_session}
use personal_deadline_manage.Guardrails.{ActionType, ActionProposal, by_phrase}
use personal_deadline_manage.Guardrails.Decision.{
  AuthorizationService, decide, decide-Says, Says, MayAct, Deletes,
}
use personal_deadline_manage.Guardrails.Resolver.{resolve, Resolution, IsResolved, resolve-named}
use personal_deadline_manage.Tests.Data.{tables}

-- Equality of texts, for the database's match.
abbrev pub same_text : Text → Text → Bool
same_text [] [] = true
same_text [] (b ∷ bs) = false
same_text (a ∷ xs) [] = false
same_text (a ∷ xs) (b ∷ bs) = a == b && same_text xs bs

abbrev delete_report : ActionProposal (List Text)
delete_report = record {
  action_type = ActionType.delete_task;
  resource = some (by_phrase (114 ∷ []));
  parameters = [];
}

resolve-named_example :
    (r : Resolution (List Text)) × ((resolve same_text delete_report (open_session tables [])).0
      ≡ ok r)
    × IsResolved delete_report (1 ∷ []) r
resolve-named_example =
    resolve-named same_text delete_report (114 ∷ []) tables refl (λ e. ground arith)
      (λ e. ground arith)

abbrev settings : AuthorizationService
settings = record { default_user_id = some 1; single_user_mode = false }

decide-Says_example :
    Says
      (MayAct settings (some 1))
      (Deletes ActionType.delete_task)
      (decide settings ActionType.delete_task (some 1))
decide-Says_example = decide-Says settings ActionType.delete_task (some 1)
