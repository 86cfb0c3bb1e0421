-- ===== src/ReschedulingSuggestionService/Unscheduled.antt =====
-- A suggestion for rows of which one stays unscheduled is refused by the schema of its result.
use personal_deadline_manage.Common.{
  ◌≡◌, refl, ◌≤◌, inl, inr, Bool, true, false, ◌&&◌, none, List, [], ◌∷◌, map, any, length, arith,
  if◌then◌else◌, not,
}
use personal_deadline_manage.Common.Int.{ℤ, leb_ℤ}
use personal_deadline_manage.Common.Sort.{length-sort_by}
use personal_deadline_manage.Model.{Task}
use personal_deadline_manage.Store.{Error, Result, ok, err, value_error}
use personal_deadline_manage.Workload.{
  TaskSummary, ReschedulingResult, WorkloadAnalysisResult, is_active,
}
use personal_deadline_manage.WorkloadAnalysisService.{valid_budget}
use personal_deadline_manage.ReschedulingCandidateService.{
  Fate, unscheduled, fate, Plan, then_plan, plan, finish, generate_for, generate_candidates,
  deduplicate, task_sort_key,
}
use personal_deadline_manage.ReschedulingCandidateService.Sound.{Among}
use personal_deadline_manage.ReschedulingSuggestionService.{
  suggest_rescheduling, standing, checked, refused_row, suggest_for_rows,
}

abbrev Leaves : Result Plan → Type 0
Leaves (ok p) = 1 ≤ length p.unscheduled
Leaves (err e) = Unit

then_plan_here : (t : TaskSummary) (rest : Result Plan) → Leaves (then_plan t (ok unscheduled) rest)
then_plan_here t (ok p) = omega arith
then_plan_here t (err e) = tt

then_plan_there :
    (t : TaskSummary) (f : Result Fate) (rest : Result Plan)
    → Leaves rest
    → Leaves (then_plan t f rest)
then_plan_there t (err e) rest h = tt
then_plan_there t (ok f) (err e) h = tt
then_plan_there t (ok Fate.excluded) (ok p) h = h
then_plan_there t (ok Fate.unscheduled) (ok p) h = omega arith
then_plan_there t (ok (Fate.suggested s)) (ok p) h = h

module _ (unique : List TaskSummary) (budget : ℤ) (t : TaskSummary)
    (active : is_active t.status ≡ true) (unknown : t.duration_minutes ≡ none) where
  fate_unscheduled : fate unique budget t ≡ ok unscheduled
  unfolding fate
  fate_unscheduled = rw (active, unknown) refl

  plan-Leaves : (ts : List TaskSummary) → Among t ts → Leaves (plan unique budget ts)
  unfolding plan
  plan-Leaves [] h = absurd h
  plan-Leaves (x ∷ xs) (inl here) =
      rw here (rw fate_unscheduled (then_plan_here t (plan unique budget xs)))
  plan-Leaves (x ∷ xs) (inr there) =
      then_plan_there x (fate unique budget x) (plan unique budget xs) (plan-Leaves xs there)

-- The result is refused.
abbrev pub Refused : Result ReschedulingResult → Type 0
Refused (ok r) = ⊥
Refused (err e) = Unit

checked_long :
    (r : ReschedulingResult) (ts : List TaskSummary)
    → r.unscheduled_tasks ≡ ts
    → 1 ≤ length ts
    → Refused (checked (ok r))
checked_long r [] is h = absurd (omega arith)
checked_long r (t ∷ ts) is h = rw (is, checked) tt

finish-Refused :
    (unique : List TaskSummary) (w : Result WorkloadAnalysisResult) (p : Result Plan)
    → Leaves p
    → Refused (checked (finish unique w p))
finish-Refused unique (err e) p h = tt
finish-Refused unique (ok w) (err e) h = tt
finish-Refused unique (ok w) (ok p) h =
    checked_long _ _ refl (omega (arith, length-sort_by task_sort_key p.unscheduled))

if-Refused :
    (b : Bool) (e : Error) (r : Result ReschedulingResult)
    → Refused (checked r)
    → Refused (checked (if b then err e else r))
if-Refused true e r h = tt
if-Refused false e r h = h

unknown-Refused :
    (b : Bool) (r : Result ReschedulingResult)
    → Refused r
    → Refused (if b then err value_error else r)
unknown-Refused true r h = tt
unknown-Refused false r h = h

module _ (t : TaskSummary) (active : is_active t.status ≡ true)
    (unknown : t.duration_minutes ≡ none) where
  generate_for-Refused :
      (default budget : ℤ) (tasks : List TaskSummary)
      → Among t (deduplicate [] tasks)
      → Refused (checked (generate_for default budget tasks))
  unfolding generate_for deduplicate
  generate_for-Refused default budget [] h = absurd h
  generate_for-Refused default budget (x ∷ xs) h =
      finish-Refused (deduplicate [] (x ∷ xs)) _ _
        (plan-Leaves (deduplicate [] (x ∷ xs)) budget t active unknown (deduplicate [] (x ∷ xs)) h)

  -- Where an active task of unknown duration is among the rows, as the first one of its id, the
  -- suggestion for these rows raises.
  pub suggest_for_rows-Refused :
      (default candidate_default : ℤ) (rows : List Task)
      → Among t (deduplicate [] (map standing rows))
      → Refused (suggest_for_rows default candidate_default rows)
  unfolding suggest_for_rows suggest_rescheduling generate_candidates
  suggest_for_rows-Refused default candidate_default rows h =
      let other = not (leb_ℤ default candidate_default && leb_ℤ candidate_default default) in
      unknown-Refused (any refused_row rows) _ (
        if-Refused (other && not (valid_budget default)) value_error
          (generate_for candidate_default default (map standing rows))
          (generate_for-Refused candidate_default default (map standing rows) h))
