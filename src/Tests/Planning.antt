-- ===== src/Tests/Planning.antt =====
-- The analyses of concrete tasks.
use personal_deadline_manage.Common.{
  ◌≡◌, refl, arith, true, false, none, some, List, [], ◌∷◌, All, filter,
}
use personal_deadline_manage.Common.Int.{pos, ltb_ℤ, ◌+ℤ◌}
use personal_deadline_manage.Model.{TaskPriority, TaskStatus}
use personal_deadline_manage.Model.Time.{minus_minutes, minutes_between}
use personal_deadline_manage.Store.{ok}
use personal_deadline_manage.Workload.{TaskSummary, FeasibilityWindow, CandidateSlot}
use personal_deadline_manage.WorkloadAnalysisService.{
  Item, summary_of, active_item, to_summaries, windows_of, analyze, calculate_total_planned_minutes,
  total_minutes,
}
use personal_deadline_manage.WorkloadAnalysisService.Pressure.{Succeeds, analyze-Succeeds}
use personal_deadline_manage.ReschedulingConstraintService.{
  find_candidate_slots, validate_candidate, has_remaining_capacity, total_on_day,
}
use personal_deadline_manage.ReschedulingConstraintService.Slots.{
  find_candidate_slots-valid, validate_candidate_unique,
}
use personal_deadline_manage.ReschedulingCandidateService.{generate_candidates}
use personal_deadline_manage.ReschedulingCandidateService.Answers.{IsOk, generate_candidates-IsOk}
use personal_deadline_manage.ReschedulingCandidateService.Sound.{Serves, generate_candidates-Serves}

abbrev lab : TaskSummary
lab = record {
  id = 1;
  task_name = 108 ∷ [];
  priority = TaskPriority.high;
  status = TaskStatus.todo;
  deadline = some 7200000000;
  duration_minutes = some (pos 60);
}

abbrev essay : TaskSummary
essay = record lab { id = 2; task_name = 101 ∷ []; duration_minutes = some (pos 30) }

abbrev done_lab : TaskSummary
done_lab = record lab { id = 3; status = TaskStatus.completed }

abbrev items : List Item
items = summary_of lab ∷ summary_of essay ∷ summary_of done_lab ∷ []

abbrev active : List TaskSummary
active = lab ∷ essay ∷ []

active_items : to_summaries (filter active_item items) ≡ ok active
unfolding to_summaries
active_items = refl

abbrev windows : List FeasibilityWindow
windows =
    record {
      task_id = 1;
      task_name = 108 ∷ [];
      deadline = 7200000000;
      duration_minutes = pos 60;
      latest_start = 3600000000;
    }
    ∷ record {
      task_id = 2;
      task_name = 101 ∷ [];
      deadline = 7200000000;
      duration_minutes = pos 30;
      latest_start = 5400000000;
    }
    ∷ []

windows_possible : windows_of active ≡ some windows
unfolding windows_of minus_minutes
windows_possible = refl

total_positive : ltb_ℤ (calculate_total_planned_minutes active) (pos 0) ≡ false
unfolding calculate_total_planned_minutes total_minutes ◌+ℤ◌
total_positive = refl

analyze-Succeeds_example : Succeeds active (pos 60) (analyze (pos 480) items (some (pos 60)))
analyze-Succeeds_example =
    analyze-Succeeds active (pos 60) windows windows_possible total_positive (pos 480) items
      (some (pos 60)) active_items refl

abbrev lab_slot : CandidateSlot
lab_slot = record { start = 3600000000; end = 7200000000; available_minutes = pos 60 }

lab_found : find_candidate_slots (pos 480) lab (some active) none ≡ ok (lab_slot ∷ [])
unfolding find_candidate_slots has_remaining_capacity total_on_day minus_minutes minutes_between
    ◌+ℤ◌
lab_found = refl

lab_accepted : validate_candidate (pos 480) lab lab_slot (some active) none ≡ ok true
unfolding validate_candidate has_remaining_capacity total_on_day minus_minutes minutes_between ◌+ℤ◌
lab_accepted = refl

find_candidate_slots-valid_example :
    All (λ slot. validate_candidate (pos 480) lab slot (some active) none ≡ ok true) (lab_slot ∷ [])
find_candidate_slots-valid_example =
    find_candidate_slots-valid (pos 480) lab (some active) none (lab_slot ∷ []) lab_found

validate_candidate_unique_example :
    find_candidate_slots (pos 480) lab (some active) none ≡ ok (lab_slot ∷ [])
validate_candidate_unique_example =
    validate_candidate_unique (pos 480) lab (some active) none lab_slot (pos 60) refl lab_accepted

generate_candidates-Serves_example :
    Serves
      (lab ∷ essay ∷ lab ∷ done_lab ∷ [])
      (pos 80)
      (generate_candidates (pos 480) (lab ∷ essay ∷ lab ∷ done_lab ∷ []) (some (pos 80)))
generate_candidates-Serves_example =
    generate_candidates-Serves (pos 480) (lab ∷ essay ∷ lab ∷ done_lab ∷ []) (some (pos 80))

generate_candidates-IsOk_example : IsOk (generate_candidates (pos 480) (lab ∷ essay ∷ []) none)
generate_candidates-IsOk_example =
    generate_candidates-IsOk (pos 480) (lab ∷ essay ∷ []) none (ground arith, (ground arith, tt))
      refl
