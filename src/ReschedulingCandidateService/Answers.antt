-- ===== src/ReschedulingCandidateService/Answers.antt =====
-- When `generate_candidates` returns.
use personal_deadline_manage.Common.{
  ℕ, zero, suc, ◌+◌, ◌-◌, ◌*◌, ◌≤◌, ◌≡◌, refl, true, false, ◌&&◌, Option, none, some, List, [], ◌∷◌,
  arith, ◌==◌, not, any, map, filter, All, All-filter, Bool-cases, inl, inr,
}
use personal_deadline_manage.Common.Int.{ℤ, pos, negsuc, leb_ℤ, ◌+ℤ◌}
use personal_deadline_manage.Model.{Uuid, Moment}
use personal_deadline_manage.Model.Time.{minute, minus_minutes}
use personal_deadline_manage.Store.{Result, ok, err}
use personal_deadline_manage.Workload.{
  TaskSummary, CandidateSlot, FeasibilityWindow, WorkloadAnalysisResult, is_active,
}
use personal_deadline_manage.WorkloadAnalysisService.{
  summary_of, active_item, to_summaries, windows_of, add_window, add_minutes, total_minutes,
  calculate_total_planned_minutes, analyze, valid_budget,
}
use personal_deadline_manage.WorkloadAnalysisService.Pressure.{Succeeds, analyze-Succeeds}
use personal_deadline_manage.ReschedulingConstraintService.{
  slot_from, slots_for, find_candidate_slots, budget_of,
}
use personal_deadline_manage.ReschedulingConstraintService.Slots.{positive}
use personal_deadline_manage.ReschedulingCandidateService.{
  Fate, Plan, positive_or_unknown, deduplicate, fate, fate_with, best_slot, then_plan, plan, finish,
  generate_for, generate_candidates,
}

abbrev pub IsOk : {A : Type 0} → Result A → Type 0
IsOk (ok a) = Unit
IsOk (err e) = ⊥

-- A positive duration fits between the first datetime and the deadline.
abbrev pub InTime : Option Moment → Option ℤ → Type 0
InTime (some deadline) (some (pos m)) = m * minute ≤ deadline
InTime (some deadline) (some (negsuc m)) = Unit
InTime (some deadline) none = Unit
InTime none minutes = Unit

abbrev pub HasTime : TaskSummary → Type 0
HasTime t = InTime t.deadline t.duration_minutes

-- The slots.
latest_start :
    (deadline m : ℕ)
    → m * minute ≤ deadline
    → (start : ℕ) × (minus_minutes deadline (pos m) ≡ some start)
unfolding minus_minutes
latest_start deadline m h = (deadline - m * minute, ground arith)

module _ (t : TaskSummary) (unique : Option (List TaskSummary)) (budget : ℤ) where
  slot_from-IsOk :
      (deadline : Moment) (minutes : ℤ) (start : Moment)
      → IsOk (slot_from t deadline minutes unique budget (some start))
  slot_from-IsOk deadline minutes start = ground arith

  slots_for-IsOk :
      (deadline : Option Moment) (minutes : Option ℤ)
      → InTime deadline minutes
      → IsOk (slots_for t deadline minutes unique budget)
  slots_for-IsOk deadline none h = tt
  slots_for-IsOk none (some minutes) h = tt
  slots_for-IsOk (some deadline) (some (negsuc m)) h = ground arith
  slots_for-IsOk (some deadline) (some (pos zero)) h = tt
  slots_for-IsOk (some deadline) (some (pos (suc m))) h =
      let (start, possible) = latest_start deadline (suc m) h in
      rw (positive m) (rw possible (slot_from-IsOk deadline (pos (suc m)) start))

  best_slot-IsOk :
      (deadline : Moment) (minutes : ℤ) (r : Result (List CandidateSlot))
      → IsOk r
      → IsOk (best_slot t deadline minutes r)
  best_slot-IsOk deadline minutes (ok slots) h = tt
  best_slot-IsOk deadline minutes (err e) h = absurd h

  fate_with-IsOk :
      (deadline : Option Moment) (minutes : Option ℤ) (r : Result (List CandidateSlot))
      → IsOk r
      → IsOk (fate_with budget t deadline minutes r)
  fate_with-IsOk deadline none r h = tt
  fate_with-IsOk none (some minutes) r h = tt
  fate_with-IsOk (some deadline) (some minutes) r h = elim (Bool-cases (leb_ℤ minutes (pos 0))) [
    | inl bad ↦ rw bad tt
    | inr fine ↦ rw fine (best_slot-IsOk deadline minutes r h)
  ]

module _ (unique : List TaskSummary) (budget : ℤ) where
  fate-IsOk : (t : TaskSummary) → HasTime t → IsOk (fate unique budget t)
  unfolding fate find_candidate_slots
  fate-IsOk t h = elim (Bool-cases (is_active t.status)) [
    | inl active ↦ rw active (
        fate_with-IsOk t (some unique) budget t.deadline t.duration_minutes _
          (slots_for-IsOk t (some unique) budget t.deadline t.duration_minutes h))
    | inr done ↦ rw done tt
  ]

  then_plan-IsOk :
      (t : TaskSummary) (f : Result Fate) (rest : Result Plan)
      → IsOk f
      → IsOk rest
      → IsOk (then_plan t f rest)
  then_plan-IsOk t (ok f) (ok p) h k = tt
  then_plan-IsOk t (ok f) (err e) h k = absurd k
  then_plan-IsOk t (err e) rest h k = absurd h

  plan-IsOk : (ts : List TaskSummary) → All HasTime ts → IsOk (plan unique budget ts)
  unfolding plan
  plan-IsOk [] h = tt
  plan-IsOk (t ∷ ts) h =
      then_plan-IsOk t (fate unique budget t) (plan unique budget ts) (fate-IsOk t h.0)
        (plan-IsOk ts h.1)

-- The analysis.
abbrev active_of : List TaskSummary → List TaskSummary
active_of ts = filter (λ (t : TaskSummary). is_active t.status) ts

to_summaries_active :
    (ts : List TaskSummary)
    → to_summaries (filter active_item (map summary_of ts)) ≡ ok (active_of ts)
unfolding to_summaries
to_summaries_active [] = refl
to_summaries_active (t ∷ ts) = ground (arith, to_summaries_active ts)

abbrev Found : Option (List FeasibilityWindow) → Type 0
Found o = (ws : List FeasibilityWindow) × (o ≡ some ws)

add_window-Found :
    (t : TaskSummary) (deadline : Option Moment) (minutes : Option ℤ)
    (rest : Option (List FeasibilityWindow))
    → InTime deadline minutes
    → positive_or_unknown minutes ≡ true
    → Found rest
    → Found (add_window t deadline minutes rest)
add_window-Found t none minutes rest h p (ws, e) = (ws, e)
add_window-Found t (some d) none rest h p (ws, e) = (ws, e)
add_window-Found t (some d) (some (negsuc m)) rest h p (ws, e) = absurd (ground (arith, p))
add_window-Found t (some d) (some (pos m)) rest h p (ws, e) =
    let (start, possible) = latest_start d m h in rw (e, possible) ((_, refl))

abbrev Counts : TaskSummary → Type 0
Counts t = positive_or_unknown t.duration_minutes ≡ true

windows_of-Found :
    (ts : List TaskSummary) → All (λ t. HasTime t × Counts t) ts → Found (windows_of ts)
unfolding windows_of
windows_of-Found [] h = ([], refl)
windows_of-Found (t ∷ ts) h =
    add_window-Found t t.deadline t.duration_minutes (windows_of ts) h.0.0 h.0.1
      (windows_of-Found ts h.1)

add_minutes_natural :
    (a : ℕ) (minutes : Option ℤ)
    → positive_or_unknown minutes ≡ true
    → (b : ℕ) × (add_minutes (pos a) minutes ≡ pos b)
unfolding ◌+ℤ◌
add_minutes_natural a none p = (a, refl)
add_minutes_natural a (some (pos m)) p = (a + m, ground arith)
add_minutes_natural a (some (negsuc m)) p = absurd (ground (arith, p))

total_natural :
    (a : ℕ) (ts : List TaskSummary)
    → All (λ t. HasTime t × Counts t) ts
    → (b : ℕ) × (total_minutes (pos a) ts ≡ pos b)
unfolding total_minutes
total_natural a [] h = (a, refl)
total_natural a (t ∷ ts) h =
    let (b, e) = add_minutes_natural a t.duration_minutes h.0.1 in rw e (total_natural b ts h.1)

Succeeds-IsOk :
    (ss : List TaskSummary) (budget : ℤ) (r : Result WorkloadAnalysisResult)
    → Succeeds ss budget r
    → IsOk r
Succeeds-IsOk ss budget (ok r) h = tt
Succeeds-IsOk ss budget (err e) h = absurd h

analyze-IsOk :
    (default budget : ℤ) (ts : List TaskSummary)
    → All (λ t. HasTime t × Counts t) ts
    → IsOk (analyze default (map summary_of ts) (some budget))
unfolding calculate_total_planned_minutes
analyze-IsOk default budget ts h =
    let active = active_of ts in
    let fine =
      All-filter (λ t. HasTime t × Counts t) (λ t. HasTime t × Counts t) (λ t. is_active t.status)
        (λ t a k. k) ts h in
    let (ws, possible) = windows_of-Found active fine in
    let (total, natural) = total_natural 0 active fine in
    Succeeds-IsOk active budget _ (
      analyze-Succeeds active budget ws possible (ground (arith, natural)) default
        (map summary_of ts) (some budget) (to_summaries_active ts) refl)

deduplicate-HasTime :
    (seen : List Uuid) (ts : List TaskSummary) → All HasTime ts → All HasTime (deduplicate seen ts)
unfolding deduplicate
deduplicate-HasTime seen [] h = tt
deduplicate-HasTime seen (t ∷ ts) h = elim (Bool-cases (any (λ k. k == t.id) seen)) [
  | inl again ↦ rw again (deduplicate-HasTime seen ts h.1)
  | inr first ↦ rw first ((h.0, deduplicate-HasTime (t.id ∷ seen) ts h.1))
]

finish-IsOk :
    (unique : List TaskSummary) (w : Result WorkloadAnalysisResult) (p : Result Plan)
    → IsOk w
    → IsOk p
    → IsOk (finish unique w p)
finish-IsOk unique (ok w) (ok p) h k = tt
finish-IsOk unique (ok w) (err e) h k = absurd k
finish-IsOk unique (err e) p h k = absurd h

generate_for-IsOk :
    (default budget : ℤ) (ts : List TaskSummary)
    → All HasTime ts
    → IsOk (generate_for default budget ts)
unfolding generate_for
generate_for-IsOk default budget [] h = tt
generate_for-IsOk default budget (t ∷ ts) h =
    let unique = deduplicate [] (t ∷ ts) in
    let timely = deduplicate-HasTime [] (t ∷ ts) h in
    let counted =
      All-filter HasTime (λ t. HasTime t × Counts t)
        (λ (s : TaskSummary). positive_or_unknown s.duration_minutes) (λ s c k. (k, c)) unique
        timely in
    finish-IsOk unique _ (plan unique budget unique) (analyze-IsOk default budget _ counted)
      (plan-IsOk unique budget unique timely)

-- If every positive duration fits between the first datetime and its task's deadline, and the
-- budget is from 1 to 1440 minutes, then `generate_candidates` returns and does not raise.
pub generate_candidates-IsOk :
    (default : ℤ) (ts : List TaskSummary) (budget_minutes : Option ℤ)
    → All HasTime ts
    → valid_budget (budget_of default budget_minutes) ≡ true
    → IsOk (generate_candidates default ts budget_minutes)
unfolding generate_candidates
generate_candidates-IsOk default ts budget_minutes h valid =
    let budget = budget_of default budget_minutes in
    let accepted : (not (leb_ℤ budget default && leb_ℤ default budget) && not (valid_budget budget))
        ≡ false =
      ground (arith, valid) in
    rw accepted (generate_for-IsOk default budget ts h)
