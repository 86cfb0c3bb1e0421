-- ===== src/ReschedulingCandidateService.antt =====
-- services/rescheduling_candidate_service.py, with a suggestion's fixed reason left out.
pub mod Sound
pub mod Answers
use personal_deadline_manage.Common.{
  ℕ, Bool, true, false, Option, none, some, List, [], ◌∷◌, ◌==◌, any, filter, map, not, ◌&&◌,
  if◌then◌else◌, find?,
}
use personal_deadline_manage.Common.Int.{ℤ, pos, ltb_ℤ, leb_ℤ}
use personal_deadline_manage.Common.Order.{Order, nat_order, text_order, pair_order}
use personal_deadline_manage.Common.Sort.{sort_by}
use personal_deadline_manage.Model.{Uuid, Text, Moment, TaskPriority}
use personal_deadline_manage.Store.{Result, ok, err, value_error}
use personal_deadline_manage.Workload.{
  TaskSummary, CandidateSlot, OverloadWarning, ReschedulingSuggestion, ReschedulingResult,
  WorkloadAnalysisResult, is_active, priority_rank,
}
use personal_deadline_manage.WorkloadAnalysisService.{
  Item, summary_of, analyze, deadline_key, valid_budget,
}
use personal_deadline_manage.ReschedulingConstraintService.{find_candidate_slots, budget_of}

abbrev pub task_sort_key : TaskSummary → (ℕ × Moment) × (ℕ × (Text × Uuid))
task_sort_key t = (deadline_key t.deadline, (priority_rank t.priority, (t.task_name, t.id)))

-- The first task of each id is kept.
unfoldable pub deduplicate : List Uuid → List TaskSummary → List TaskSummary
deduplicate seen [] = []
deduplicate seen (t ∷ ts) =
    if any (λ k. k == t.id) seen then deduplicate seen ts else t ∷ deduplicate (t.id ∷ seen) ts

abbrev pub positive_or_unknown : Option ℤ → Bool
positive_or_unknown none = true
positive_or_unknown (some m) = ltb_ℤ (pos 0) m

-- What becomes of a task: it is left out, unscheduled, or given a slot.
pub data Fate : Type 0 where
  excluded unscheduled : Fate
  suggested : ReschedulingSuggestion → Fate

abbrev pub suggestion : TaskSummary → Moment → ℤ → CandidateSlot → ReschedulingSuggestion
suggestion task deadline minutes slot = record {
  task_id = task.id;
  task_name = task.task_name;
  duration_minutes = minutes;
  current_deadline = deadline;
  candidate_slot = slot;
}

abbrev pub slot_key : CandidateSlot → Moment × Moment
slot_key s = (s.start, s.end)

abbrev pub first_slot : TaskSummary → Moment → ℤ → List CandidateSlot → Fate
first_slot task deadline minutes [] = unscheduled
first_slot task deadline minutes (s ∷ ss) = suggested (suggestion task deadline minutes s)

abbrev pub best_slot : TaskSummary → Moment → ℤ → Result (List CandidateSlot) → Result Fate
best_slot task deadline minutes (err e) = err e
best_slot task deadline minutes (ok slots) =
    ok (first_slot task deadline minutes (sort_by slot_key slots))

abbrev pub fate_with :
    ℤ → TaskSummary → Option Moment → Option ℤ → Result (List CandidateSlot) → Result Fate
fate_with budget task deadline none slots = ok unscheduled
fate_with budget task none (some minutes) slots = ok unscheduled
fate_with budget task (some deadline) (some minutes) slots =
    let best = best_slot task deadline minutes slots in
    if leb_ℤ minutes (pos 0) then ok unscheduled else best

-- The loop's body. The constraint service has the budget as its default, or is given it.
unfoldable pub fate : List TaskSummary → ℤ → TaskSummary → Result Fate
unfolding find_candidate_slots
fate unique budget task =
    let placed =
      fate_with budget task task.deadline task.duration_minutes
        (find_candidate_slots budget task (some unique) (some budget)) in
    if not (is_active task.status) then ok excluded else placed

pub record Plan : Type 0 where
  pub suggestions : List ReschedulingSuggestion
  pub unscheduled : List TaskSummary

abbrev pub empty_plan : Plan
empty_plan = record { suggestions = []; unscheduled = [] }

abbrev pub add_fate : TaskSummary → Fate → Plan → Plan
add_fate task excluded p = p
add_fate task unscheduled p = record p { unscheduled = task ∷ p.unscheduled }
add_fate task (suggested s) p = record p { suggestions = s ∷ p.suggestions }

abbrev pub then_plan : TaskSummary → Result Fate → Result Plan → Result Plan
then_plan task (err e) rest = err e
then_plan task (ok f) (err e) = err e
then_plan task (ok f) (ok p) = ok (add_fate task f p)

unfoldable pub plan : List TaskSummary → ℤ → List TaskSummary → Result Plan
unfolding fate
plan unique budget [] = ok empty_plan
plan unique budget (t ∷ ts) =
    let rest = plan unique budget ts in then_plan t (fate unique budget t) rest

abbrev pub rank_of : Option TaskSummary → ℕ
rank_of none = priority_rank TaskPriority.low
rank_of (some t) = priority_rank t.priority

abbrev pub suggestion_key : List TaskSummary → ReschedulingSuggestion → Moment × (ℕ × (Text × Uuid))
suggestion_key unique s = (
  s.current_deadline,
  (rank_of (find? (λ (t : TaskSummary). t.id == s.task_id) unique), (s.task_name, s.task_id)),
)

abbrev pub finish :
    List TaskSummary → Result WorkloadAnalysisResult → Result Plan → Result ReschedulingResult
finish unique (err e) p = err e
finish unique (ok w) (err e) = err e
finish unique (ok w) (ok p) = ok (record {
  suggestions = sort_by (suggestion_key unique) p.suggestions;
  overloaded_days =
      sort_by (λ (d : ℕ). d) (map (λ (o : OverloadWarning). o.date) w.overload_warnings);
  unscheduled_tasks = sort_by task_sort_key p.unscheduled;
})

abbrev pub no_suggestions : ReschedulingResult
no_suggestions = record { suggestions = []; overloaded_days = []; unscheduled_tasks = [] }

unfoldable pub generate_for : ℤ → ℤ → List TaskSummary → Result ReschedulingResult
unfolding deduplicate plan analyze
generate_for default budget [] = ok no_suggestions
generate_for default budget (t ∷ ts) =
    let unique = deduplicate [] (t ∷ ts) in
    let valid = filter (λ (s : TaskSummary). positive_or_unknown s.duration_minutes) unique in
    finish unique (analyze default (map summary_of valid) (some budget)) (plan unique budget unique)

-- A budget that is not the default makes a constraint service of its own, which may refuse it.
unfoldable pub generate_candidates : ℤ → List TaskSummary → Option ℤ → Result ReschedulingResult
unfolding generate_for
generate_candidates default tasks budget_minutes =
    let budget = budget_of default budget_minutes in
    let result = generate_for default budget tasks in
    if not (leb_ℤ budget default && leb_ℤ default budget) && not (valid_budget budget)
    then err value_error
    else result
