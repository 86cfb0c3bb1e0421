-- ===== src/WorkloadAnalysisService.antt =====
-- services/workload_analysis_service.py, without the text of the explanation.
pub mod Days
pub mod Pressure
use personal_deadline_manage.Common.{
  ℕ, ◌/◌, Bool, true, false, Option, none, some, List, [], ◌∷◌, ◌++◌, map, ltb, leb, length, filter,
  if◌then◌else◌, ◌&&◌,
}
use personal_deadline_manage.Common.Int.{ℤ, pos, ◌+ℤ◌, ◌-ℤ◌, ltb_ℤ, leb_ℤ}
use personal_deadline_manage.Common.Order.{Order, nat_order, text_order, text_lt, pair_order}
use personal_deadline_manage.Common.Sort.{sort_by}
use personal_deadline_manage.Model.{
  Uuid, Text, Moment, Task, TaskPriority, TaskStatus, Column, known, unknown,
}
use personal_deadline_manage.Model.Time.{date, minus_minutes}
use personal_deadline_manage.Store.{Result, ok, err, value_error, overflow_error}
use personal_deadline_manage.Workload.{
  TaskSummary, DeadlineCollision, BusyDayWarning, FeasibilityWindow, DailyPressure, OverloadWarning,
  SchedulingPressure, WorkloadAnalysisResult, is_active, is_high, priority_rank,
}
use personal_deadline_manage.Workload.Groups.{collect}

-- What `analyze` takes: rows of the table, or summaries.
pub data Item : Type 0 where
  row_of : Task → Item
  summary_of : TaskSummary → Item

-- An unknown status is in no set of statuses.
abbrev pub active_column : Column TaskStatus → Bool
active_column (known s) = is_active s
active_column (unknown text) = false

abbrev pub active_item : Item → Bool
active_item (row_of t) = active_column t.status
active_item (summary_of s) = is_active s.status

-- `TaskPriority(text)`, which raises ValueError on any other text.
abbrev pub summarize : Task → Column TaskPriority → Column TaskStatus → Result TaskSummary
summarize t (known p) (known s) = ok (record {
  id = t.id;
  task_name = t.task_name;
  priority = p;
  status = s;
  deadline = some t.deadline;
  duration_minutes = t.duration_minutes;
})
summarize t _ _ = err value_error

abbrev pub to_summary : Item → Result TaskSummary
to_summary (row_of t) = summarize t t.priority t.status
to_summary (summary_of s) = ok s

abbrev pub cons_result : Result TaskSummary → Result (List TaskSummary) → Result (List TaskSummary)
cons_result (ok s) (ok ss) = ok (s ∷ ss)
cons_result (ok s) (err e) = err e
cons_result (err e) rest = err e

unfoldable pub to_summaries : List Item → Result (List TaskSummary)
to_summaries [] = ok []
to_summaries (i ∷ is) = let rest = to_summaries is in cons_result (to_summary i) rest

-- A task without a deadline comes last.
abbrev pub deadline_key : Option Moment → ℕ × Moment
deadline_key (some d) = (0, d)
deadline_key none = (1, 0)

abbrev pub sort_key : TaskSummary → (ℕ × Moment) × (ℕ × Text)
sort_key s = (deadline_key s.deadline, (priority_rank s.priority, s.task_name))

unfoldable pub sort_tasks : List TaskSummary → List TaskSummary
sort_tasks ss = sort_by sort_key ss

-- The HIGH tasks with a deadline are grouped by it.
abbrev pub collision_key : TaskSummary → Option Moment
collision_key s = if is_high s.priority then s.deadline else none

abbrev pub collision : Moment × List TaskSummary → DeadlineCollision
collision (deadline, ss) = record { deadline = deadline; tasks = sort_tasks ss }

unfoldable pub detect_deadline_collisions : List TaskSummary → List DeadlineCollision
unfolding sort_tasks
detect_deadline_collisions ss =
    sort_by (λ (c : DeadlineCollision). c.deadline)
      (map collision (filter (λ g. leb 2 (length g.1)) (collect collision_key ss [])))

abbrev pub day_of : Option Moment → Option ℕ
day_of none = none
day_of (some d) = some (date d)

abbrev pub busy_key : TaskSummary → Option ℕ
busy_key s = day_of s.deadline

abbrev pub busy_day : ℕ × List TaskSummary → BusyDayWarning
busy_day (day, ss) = record { date = day; task_count = length ss; tasks = sort_tasks ss }

unfoldable pub detect_busy_days : List TaskSummary → List BusyDayWarning
unfolding sort_tasks
detect_busy_days ss =
    sort_by (λ (w : BusyDayWarning). w.date)
      (map busy_day (filter (λ g. ltb 5 (length g.1)) (collect busy_key ss [])))

unfoldable pub recommend_order : List TaskSummary → List TaskSummary
unfolding sort_tasks
recommend_order ss = sort_tasks ss

-- A window, if the task has a deadline and a duration; `none` is OverflowError.
abbrev pub push_window :
    TaskSummary
    → Moment
    → ℤ
    → Option Moment
    → List FeasibilityWindow
    → Option (List FeasibilityWindow)
push_window s deadline minutes none ws = none
push_window s deadline minutes (some start) ws = some (
    record {
      task_id = s.id;
      task_name = s.task_name;
      deadline = deadline;
      duration_minutes = minutes;
      latest_start = start;
    }
    ∷ ws)

abbrev pub add_window :
    TaskSummary
    → Option Moment
    → Option ℤ
    → Option (List FeasibilityWindow)
    → Option (List FeasibilityWindow)
add_window s (some deadline) (some minutes) (some ws) =
    push_window s deadline minutes (minus_minutes deadline minutes) ws
add_window s none m rest = rest
add_window s (some d) none rest = rest
add_window s (some d) (some m) none = none

unfoldable pub windows_of : List TaskSummary → Option (List FeasibilityWindow)
unfolding minus_minutes
windows_of [] = some []
windows_of (s ∷ ss) = let rest = windows_of ss in add_window s s.deadline s.duration_minutes rest

abbrev pub window_key : FeasibilityWindow → Moment × Text
window_key w = (w.deadline, w.task_name)

abbrev pub sort_windows : Option (List FeasibilityWindow) → Option (List FeasibilityWindow)
sort_windows none = none
sort_windows (some ws) = some (sort_by window_key ws)

unfoldable pub calculate_feasibility_windows : List TaskSummary → Option (List FeasibilityWindow)
unfolding windows_of
calculate_feasibility_windows ss = sort_windows (windows_of ss)

abbrev pub add_minutes : ℤ → Option ℤ → ℤ
add_minutes total none = total
add_minutes total (some m) = total +ℤ m

-- The loop, from the total so far.
unfoldable pub total_minutes : ℤ → List TaskSummary → ℤ
unfolding ◌+ℤ◌
total_minutes total [] = total
total_minutes total (s ∷ ss) = total_minutes (add_minutes total s.duration_minutes) ss

unfoldable pub calculate_total_planned_minutes : List TaskSummary → ℤ
unfolding total_minutes
calculate_total_planned_minutes ss = total_minutes (pos 0) ss

abbrev pub key_if_known : Option ℤ → Option ℕ → Option ℕ
key_if_known none day = none
key_if_known (some m) day = day

abbrev pub pressure_key : TaskSummary → Option ℕ
pressure_key s = key_if_known s.duration_minutes (day_of s.deadline)

abbrev pub pressure : ℤ → ℕ × List TaskSummary → DailyPressure
pressure budget (day, ss) = record {
  date = day;
  planned_minutes = total_minutes (pos 0) ss;
  budget_minutes = budget;
  tasks = sort_tasks ss;
}

unfoldable pub calculate_daily_pressure : List TaskSummary → ℤ → List DailyPressure
unfolding sort_tasks total_minutes
calculate_daily_pressure ss budget =
    sort_by (λ (p : DailyPressure). p.date) (map (pressure budget) (collect pressure_key ss []))

abbrev pub is_overloaded : DailyPressure → Bool
is_overloaded p = ltb_ℤ p.budget_minutes p.planned_minutes

abbrev pub overload : DailyPressure → OverloadWarning
overload p = record {
  date = p.date;
  planned_minutes = p.planned_minutes;
  budget_minutes = p.budget_minutes;
  excess_minutes = p.planned_minutes -ℤ p.budget_minutes;
  tasks = p.tasks;
}

unfoldable pub calculate_overload_warnings : List DailyPressure → List OverloadWarning
unfolding ◌-ℤ◌
calculate_overload_warnings ps = map overload (filter is_overloaded ps)

abbrev pub max : ℕ → ℕ → ℕ
max a b = if ltb a b then b else a

abbrev pub min : ℕ → ℕ → ℕ
min a b = if ltb b a then b else a

abbrev pub overlaps : FeasibilityWindow → FeasibilityWindow → Bool
overlaps a b = ltb (max a.latest_start b.latest_start) (min a.deadline b.deadline)

abbrev pub Pair : Type 0
Pair = FeasibilityWindow × FeasibilityWindow

-- The names' order decides which window comes first.
abbrev pub in_name_order : FeasibilityWindow → FeasibilityWindow → Pair
in_name_order a b = if text_lt a.task_name b.task_name then (a, b) else (b, a)

-- The inner loop.
unfoldable pub overlaps_with : FeasibilityWindow → List FeasibilityWindow → List Pair
overlaps_with a [] = []
overlaps_with a (b ∷ ws) =
    let rest = overlaps_with a ws in if overlaps a b then in_name_order a b ∷ rest else rest

unfoldable pub all_overlaps : List FeasibilityWindow → List Pair
unfolding overlaps_with
all_overlaps [] = []
all_overlaps (a ∷ ws) = overlaps_with a ws ++ all_overlaps ws

abbrev pub pair_key : Pair → Text × Text
pair_key (a, b) = (a.task_name, b.task_name)

unfoldable pub detect_scheduling_pressure : List FeasibilityWindow → List Pair
unfolding all_overlaps
detect_scheduling_pressure ws = sort_by pair_key (all_overlaps ws)

abbrev pub to_pressure : Pair → SchedulingPressure
to_pressure (a, b) = record {
  task_a_id = a.task_id;
  task_a_name = a.task_name;
  task_b_id = b.task_id;
  task_b_name = b.task_name;
  overlap_start = max a.latest_start b.latest_start;
  overlap_end = min a.deadline b.deadline;
}

unfoldable pub convert_scheduling_pressure : List Pair → List SchedulingPressure
convert_scheduling_pressure ps = map to_pressure ps

-- The result's schema refuses a negative total.
abbrev pub checked_result :
    List TaskSummary → ℤ → Option (List FeasibilityWindow) → Result WorkloadAnalysisResult
checked_result ss budget none = err overflow_error
checked_result ss budget (some ws) =
    let total = calculate_total_planned_minutes ss in
    let pressures = calculate_daily_pressure ss budget in
    if ltb_ℤ total (pos 0)
    then err value_error
    else ok (record {
      total_tasks = length ss;
      deadline_collisions = detect_deadline_collisions ss;
      busy_days = detect_busy_days ss;
      recommended_order = recommend_order ss;
      total_planned_minutes = total;
      feasibility_windows = ws;
      daily_pressure = pressures;
      overload_warnings = calculate_overload_warnings pressures;
      scheduling_pressure = convert_scheduling_pressure (detect_scheduling_pressure ws);
    })

abbrev pub analyze_summaries : ℤ → Result (List TaskSummary) → Result WorkloadAnalysisResult
analyze_summaries budget (err e) = err e
analyze_summaries budget (ok ss) = checked_result ss budget (calculate_feasibility_windows ss)

-- The default budget is the instance's.
abbrev pub effective_budget : ℤ → Option ℤ → ℤ
effective_budget default none = default
effective_budget default (some budget) = budget

unfoldable pub analyze : ℤ → List Item → Option ℤ → Result WorkloadAnalysisResult
unfolding to_summaries calculate_feasibility_windows calculate_total_planned_minutes
    calculate_daily_pressure detect_deadline_collisions detect_busy_days recommend_order
    calculate_overload_warnings convert_scheduling_pressure detect_scheduling_pressure
analyze default items budget =
    analyze_summaries (effective_budget default budget) (to_summaries (filter active_item items))

-- `__init__` refuses a budget outside of a day.
abbrev pub valid_budget : ℤ → Bool
valid_budget budget = ltb_ℤ (pos 0) budget && leb_ℤ budget (pos 1440)
