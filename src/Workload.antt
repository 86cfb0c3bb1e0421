-- ===== src/Workload.antt =====
-- schemas/workload.py: what the analyses read and return. The percentage of a day's pressure, a
-- float, and the texts are left out.
pub mod Groups
pub mod Reports
use personal_deadline_manage.Common.{ℕ, Bool, true, false, Option, none, some, List, ◌&&◌, leb, not}
use personal_deadline_manage.Common.Int.{ℤ}
use personal_deadline_manage.Common.Order.{Order}
use personal_deadline_manage.Model.{Uuid, Text, Moment, TaskPriority, TaskStatus}

pub record TaskSummary : Type 0 where
  pub id : Uuid
  pub task_name : Text
  pub priority : TaskPriority
  pub status : TaskStatus
  pub deadline : Option Moment
  pub duration_minutes : Option ℤ

pub record DeadlineCollision : Type 0 where
  pub deadline : Moment
  pub tasks : List TaskSummary

pub record BusyDayWarning : Type 0 where
  pub date : ℕ
  pub task_count : ℕ
  pub tasks : List TaskSummary

pub record FeasibilityWindow : Type 0 where
  pub task_id : Uuid
  pub task_name : Text
  pub deadline : Moment
  pub duration_minutes : ℤ
  pub latest_start : Moment

pub record DailyPressure : Type 0 where
  pub date : ℕ
  pub planned_minutes : ℤ
  pub budget_minutes : ℤ
  pub tasks : List TaskSummary

pub record OverloadWarning : Type 0 where
  pub date : ℕ
  pub planned_minutes : ℤ
  pub budget_minutes : ℤ
  pub excess_minutes : ℤ
  pub tasks : List TaskSummary

pub record SchedulingPressure : Type 0 where
  pub task_a_id : Uuid
  pub task_a_name : Text
  pub task_b_id : Uuid
  pub task_b_name : Text
  pub overlap_start : Moment
  pub overlap_end : Moment

pub record WorkloadAnalysisResult : Type 0 where
  pub total_tasks : ℕ
  pub deadline_collisions : List DeadlineCollision
  pub busy_days : List BusyDayWarning
  pub recommended_order : List TaskSummary
  pub total_planned_minutes : ℤ
  pub feasibility_windows : List FeasibilityWindow
  pub daily_pressure : List DailyPressure
  pub overload_warnings : List OverloadWarning
  pub scheduling_pressure : List SchedulingPressure

pub record CandidateSlot : Type 0 where
  pub start : Moment
  pub end : Moment
  pub available_minutes : ℤ

pub record ReschedulingSuggestion : Type 0 where
  pub task_id : Uuid
  pub task_name : Text
  pub duration_minutes : ℤ
  pub current_deadline : Moment
  pub candidate_slot : CandidateSlot

pub record ReschedulingResult : Type 0 where
  pub suggestions : List ReschedulingSuggestion
  pub overloaded_days : List ℕ
  pub unscheduled_tasks : List TaskSummary

-- TODO and IN_PROGRESS.
abbrev pub is_active : TaskStatus → Bool
is_active TaskStatus.todo = true
is_active TaskStatus.in_progress = true
is_active _ = false

abbrev pub is_high : TaskPriority → Bool
is_high TaskPriority.high = true
is_high _ = false

abbrev pub priority_rank : TaskPriority → ℕ
priority_rank TaskPriority.high = 0
priority_rank TaskPriority.medium = 1
priority_rank TaskPriority.low = 2
