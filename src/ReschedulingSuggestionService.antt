-- ===== src/ReschedulingSuggestionService.antt =====
-- services/rescheduling_suggestion_service.py.
pub mod Unscheduled
use personal_deadline_manage.Common.{
  Bool, true, false, ◌&&◌, Option, none, some, List, [], ◌∷◌, map, any, if◌then◌else◌,
}
use personal_deadline_manage.Model.{Task, TaskPriority, TaskStatus, Column, known, unknown}
use personal_deadline_manage.Common.Int.{ℤ}
use personal_deadline_manage.Store.{Result, ok, err, value_error}
use personal_deadline_manage.Workload.{TaskSummary, ReschedulingResult, is_active}
use personal_deadline_manage.ReschedulingConstraintService.{budget_of}
use personal_deadline_manage.ReschedulingCandidateService.{generate_candidates, positive_or_unknown}

-- With the defaults of this service and of its candidate service.
unfoldable pub suggest_rescheduling :
    ℤ → ℤ → List TaskSummary → Option ℤ → Result ReschedulingResult
unfolding generate_candidates
suggest_rescheduling default candidate_default tasks budget_minutes =
    generate_candidates candidate_default tasks (some (budget_of default budget_minutes))

-- Called with rows of the table, whose ids differ. The analysis refuses an active row of unknown
-- priority, unless its duration leaves it out; a row of unknown status is not active. The schema of
-- the result takes no row among the unscheduled tasks: pydantic's error is a ValueError.
abbrev pub standing_priority : Column TaskPriority → TaskPriority
standing_priority (known p) = p
standing_priority (unknown t) = TaskPriority.low

abbrev pub standing_status : Column TaskStatus → TaskStatus
standing_status (known s) = s
standing_status (unknown t) = TaskStatus.cancelled

abbrev pub standing : Task → TaskSummary
standing t = record {
  id = t.id;
  task_name = t.task_name;
  priority = standing_priority t.priority;
  status = standing_status t.status;
  deadline = some t.deadline;
  duration_minutes = t.duration_minutes;
}

abbrev pub is_unknown : Column TaskPriority → Bool
is_unknown (known p) = false
is_unknown (unknown t) = true

abbrev pub refused_row : Task → Bool
refused_row t =
    is_active (standing_status t.status)
    && is_unknown t.priority
    && positive_or_unknown t.duration_minutes

abbrev pub checked : Result ReschedulingResult → Result ReschedulingResult
checked (err e) = err e
checked (ok r) = elim r.unscheduled_tasks [ [] ↦ ok r | t ∷ ts ↦ err value_error ]

unfoldable pub suggest_for_rows : ℤ → ℤ → List Task → Result ReschedulingResult
unfolding suggest_rescheduling
suggest_for_rows default candidate_default rows =
    let r = checked (suggest_rescheduling default candidate_default (map standing rows) none) in
    if any refused_row rows then err value_error else r
