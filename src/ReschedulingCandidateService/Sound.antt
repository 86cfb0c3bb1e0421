-- ===== src/ReschedulingCandidateService/Sound.antt =====
-- What the suggestions promise.
use personal_deadline_manage.Common.{
  ℕ, ◌+◌, ◌≡◌, ◌⊎◌, refl, Bool, true, false, Option, none, some, List, [], ◌∷◌, arith, not, ◌&&◌,
  length, filter, if◌then◌else◌, All, All-mono, Bool-cases, inl, inr,
}
use personal_deadline_manage.Common.Int.{ℤ, pos, leb_ℤ}
use personal_deadline_manage.Common.Order.{nat_order, text_order, pair_order}
use personal_deadline_manage.Common.Sort.{sort_by, All-sort_by, length-sort_by}
use personal_deadline_manage.Model.{Moment}
use personal_deadline_manage.Store.{Result, ok, err, value_error}
use personal_deadline_manage.Workload.{
  TaskSummary, CandidateSlot, ReschedulingSuggestion, ReschedulingResult, WorkloadAnalysisResult,
  is_active,
}
use personal_deadline_manage.WorkloadAnalysisService.{valid_budget}
use personal_deadline_manage.ReschedulingConstraintService.{
  find_candidate_slots, validate_candidate, budget_of,
}
use personal_deadline_manage.ReschedulingConstraintService.Slots.{find_candidate_slots-valid}
use personal_deadline_manage.ReschedulingCandidateService.{
  Fate, excluded, unscheduled, suggested, Plan, deduplicate, fate, fate_with, best_slot, first_slot,
  slot_key, then_plan, plan, suggestion_key, task_sort_key, finish, generate_for,
  generate_candidates,
}

-- The slot of the suggestion is valid for the active task `t`.
pub record Supports (unique : List TaskSummary) (budget : ℤ) (t : TaskSummary)
    (s : ReschedulingSuggestion) : Type 0 where
  pub task : s.task_id ≡ t.id
  pub name : s.task_name ≡ t.task_name
  pub active : is_active t.status ≡ true
  pub deadline : t.deadline ≡ some s.current_deadline
  pub duration : t.duration_minutes ≡ some s.duration_minutes
  pub valid : validate_candidate budget t s.candidate_slot (some unique) (some budget) ≡ ok true

abbrev pub Among : TaskSummary → List TaskSummary → Type 0
Among t [] = ⊥
Among t (x ∷ xs) = (x ≡ t) ⊎ Among t xs

-- The tasks `ts` of which the suggestions are made.
abbrev pub Supported : List TaskSummary → ℤ → List TaskSummary → ReschedulingSuggestion → Type 0
Supported unique budget ts s = (t : TaskSummary) × (Among t ts × Supports unique budget t s)

-- A task is excluded exactly if it is not active.
abbrev Fated : List TaskSummary → ℤ → TaskSummary → Result Fate → Type 0
Fated unique budget t (err e) = Unit
Fated unique budget t (ok excluded) = is_active t.status ≡ false
Fated unique budget t (ok unscheduled) = is_active t.status ≡ true
Fated unique budget t (ok (suggested s)) = Supports unique budget t s

module _ (unique : List TaskSummary) (budget : ℤ) (t : TaskSummary)
    (active : is_active t.status ≡ true) where
  abbrev Valid : CandidateSlot → Type 0
  Valid slot = validate_candidate budget t slot (some unique) (some budget) ≡ ok true

  first_slot-Fated :
      (deadline : Moment) (minutes : ℤ) (slots : List CandidateSlot)
      → t.deadline ≡ some deadline
      → t.duration_minutes ≡ some minutes
      → All Valid slots
      → Fated unique budget t (ok (first_slot t deadline minutes slots))
  first_slot-Fated deadline minutes [] d m h = active
  first_slot-Fated deadline minutes (s ∷ ss) d m h = record {
    task = refl;
    name = refl;
    active = active;
    deadline = d;
    duration = m;
    valid = h.0;
  }

  best_slot-Fated :
      (deadline : Moment) (minutes : ℤ) (found : Result (List CandidateSlot))
      → t.deadline ≡ some deadline
      → t.duration_minutes ≡ some minutes
      → ((slots : List CandidateSlot) → found ≡ ok slots → All Valid slots)
      → Fated unique budget t (best_slot t deadline minutes found)
  best_slot-Fated deadline minutes (err e) d m h = tt
  best_slot-Fated deadline minutes (ok slots) d m h =
      first_slot-Fated deadline minutes (sort_by slot_key slots) d m
        (All-sort_by Valid slot_key slots (h slots refl))

  fate_with-Fated :
      (deadline : Option Moment) (minutes : Option ℤ)
      → t.deadline ≡ deadline
      → t.duration_minutes ≡ minutes
      → Fated unique budget t (
          fate_with budget t deadline minutes
            (find_candidate_slots budget t (some unique) (some budget)))
  fate_with-Fated deadline none d m = active
  fate_with-Fated none (some minutes) d m = active
  fate_with-Fated (some deadline) (some minutes) d m = elim (Bool-cases (leb_ℤ minutes (pos 0))) [
    | inl bad ↦ rw bad active
    | inr fine ↦ rw fine (
        best_slot-Fated deadline minutes (find_candidate_slots budget t (some unique) (some budget))
          d m (find_candidate_slots-valid budget t (some unique) (some budget)))
  ]

fate-Fated :
    (unique : List TaskSummary) (budget : ℤ) (t : TaskSummary)
    → Fated unique budget t (fate unique budget t)
unfolding fate
fate-Fated unique budget t = elim (Bool-cases (is_active t.status)) [
  | inl active ↦
      rw active (fate_with-Fated unique budget t active t.deadline t.duration_minutes refl refl)
  | inr done ↦ rw done done
]

abbrev active_count : List TaskSummary → ℕ
active_count ts = length (filter (λ (t : TaskSummary). is_active t.status) ts)

-- Every active task is either given a valid slot or reported as unscheduled.
abbrev Planned : List TaskSummary → ℤ → List TaskSummary → Result Plan → Type 0
Planned unique budget ts (err e) = Unit
Planned unique budget ts (ok p) =
    All (Supported unique budget ts) p.suggestions
    × (length p.suggestions + length p.unscheduled ≡ active_count ts)

later-Supported :
    (unique : List TaskSummary) (budget : ℤ) (t : TaskSummary) (ts : List TaskSummary)
    (ss : List ReschedulingSuggestion)
    → All (Supported unique budget ts) ss
    → All (Supported unique budget (t ∷ ts)) ss
later-Supported unique budget t ts ss h =
    All-mono (Supported unique budget ts) (Supported unique budget (t ∷ ts))
      (λ s k. (k.0, (inr k.1.0, k.1.1))) ss h

then_plan-Planned :
    (unique : List TaskSummary) (budget : ℤ) (t : TaskSummary) (ts : List TaskSummary)
    (f : Result Fate) (rest : Result Plan)
    → Fated unique budget t f
    → Planned unique budget ts rest
    → Planned unique budget (t ∷ ts) (then_plan t f rest)
then_plan-Planned unique budget t ts (err e) rest h k = tt
then_plan-Planned unique budget t ts (ok f) (err e) h k = tt
then_plan-Planned unique budget t ts (ok excluded) (ok p) h k =
    (later-Supported unique budget t ts p.suggestions k.0, ground (arith, h, k.1))
then_plan-Planned unique budget t ts (ok unscheduled) (ok p) h k =
    (later-Supported unique budget t ts p.suggestions k.0, ground (arith, h, k.1))
then_plan-Planned unique budget t ts (ok (suggested s)) (ok p) h k = (
  ((t, (inl refl, h)), later-Supported unique budget t ts p.suggestions k.0),
  ground (arith, h.active, k.1),
)

plan-Planned :
    (unique : List TaskSummary) (budget : ℤ) (ts : List TaskSummary)
    → Planned unique budget ts (plan unique budget ts)
unfolding plan
plan-Planned unique budget [] = (tt, refl)
plan-Planned unique budget (t ∷ ts) =
    then_plan-Planned unique budget t ts (fate unique budget t) (plan unique budget ts)
      (fate-Fated unique budget t) (plan-Planned unique budget ts)

-- The suggestions' slots are valid, and every active task, once for its id, is in the result.
abbrev pub Serves : List TaskSummary → ℤ → Result ReschedulingResult → Type 0
Serves tasks budget (err e) = Unit
Serves tasks budget (ok r) =
    let unique = deduplicate [] tasks in
    All (Supported unique budget unique) r.suggestions
    × (length r.suggestions + length r.unscheduled_tasks ≡ active_count unique)

finish-Serves :
    (tasks : List TaskSummary) (budget : ℤ) (w : Result WorkloadAnalysisResult) (p : Result Plan)
    → Planned (deduplicate [] tasks) budget (deduplicate [] tasks) p
    → Serves tasks budget (finish (deduplicate [] tasks) w p)
finish-Serves tasks budget (err e) p h = tt
finish-Serves tasks budget (ok w) (err e) h = tt
finish-Serves tasks budget (ok w) (ok p) h =
    let unique = deduplicate [] tasks in
    (
      All-sort_by (Supported unique budget unique) (suggestion_key unique) p.suggestions h.0,
      ground (
        arith,
        length-sort_by (suggestion_key unique) p.suggestions,
        length-sort_by task_sort_key p.unscheduled,
        h.1,
      ),
    )

generate_for-Serves :
    (default budget : ℤ) (tasks : List TaskSummary)
    → Serves tasks budget (generate_for default budget tasks)
unfolding generate_for
generate_for-Serves default budget [] = unfold deduplicate in (tt, refl)
generate_for-Serves default budget (t ∷ ts) =
    finish-Serves (t ∷ ts) budget _
      (plan (deduplicate [] (t ∷ ts)) budget (deduplicate [] (t ∷ ts)))
      (plan-Planned (deduplicate [] (t ∷ ts)) budget (deduplicate [] (t ∷ ts)))

refused-Serves :
    (refused : Bool) (tasks : List TaskSummary) (budget : ℤ) (r : Result ReschedulingResult)
    → Serves tasks budget r
    → Serves tasks budget (if refused then err value_error else r)
refused-Serves true tasks budget r h = tt
refused-Serves false tasks budget r h = h

-- Where `generate_candidates` returns, each suggestion is for an active task of the list without
-- its repeated ids, with this task's name, deadline and duration and a slot that
-- `validate_candidate` accepts; and suggestions and unscheduled tasks together are as many as the
-- active tasks of that list.
pub generate_candidates-Serves :
    (default : ℤ) (tasks : List TaskSummary) (budget_minutes : Option ℤ)
    → Serves tasks
        (budget_of default budget_minutes)
        (generate_candidates default tasks budget_minutes)
unfolding generate_candidates
generate_candidates-Serves default tasks budget_minutes =
    let budget = budget_of default budget_minutes in
    refused-Serves (not (leb_ℤ budget default && leb_ℤ default budget) && not (valid_budget budget))
      tasks budget (generate_for default budget tasks) (generate_for-Serves default budget tasks)
