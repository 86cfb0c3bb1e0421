-- ===== src/WorkloadAnalysisService/Pressure.antt =====
-- The windows, the pairs of tasks that press on each other, and the whole analysis.
use personal_deadline_manage.Common.{
  ◌<◌, ◌≡◌, refl, true, false, Option, none, some, List, [], ◌∷◌, arith, length, filter, All,
  All-append, Bool-cases, inl, inr,
}
use personal_deadline_manage.Common.Int.{ℤ, pos, ltb_ℤ}
use personal_deadline_manage.Common.Order.{nat_order, text_order, pair_order}
use personal_deadline_manage.Common.Sort.{
  IsSorted, sort_by, sort_by-IsSorted, sort_by-perm, All-sort_by,
}
use mathlib.Core.List.{Perm}
use personal_deadline_manage.Model.{Moment}
use personal_deadline_manage.Model.Time.{minus_minutes}
use personal_deadline_manage.Store.{Result, ok, err}
use personal_deadline_manage.Workload.{
  TaskSummary, DeadlineCollision, BusyDayWarning, FeasibilityWindow, DailyPressure, OverloadWarning,
  SchedulingPressure, WorkloadAnalysisResult,
}
use personal_deadline_manage.Workload.Reports.{Reports}
use personal_deadline_manage.WorkloadAnalysisService.{
  Item, Pair, active_item, to_summaries, effective_budget, analyze, checked_result, sort_key,
  sort_tasks, recommend_order, windows_of, add_window, push_window, window_key, sort_windows,
  calculate_feasibility_windows, calculate_total_planned_minutes, calculate_daily_pressure,
  overlaps, in_name_order, overlaps_with, all_overlaps, pair_key, to_pressure,
  detect_scheduling_pressure, convert_scheduling_pressure,
}
use personal_deadline_manage.WorkloadAnalysisService.Days.{
  busy_entry, collision_entry, pressure_entry, warned, detect_busy_days-Reports,
  detect_deadline_collisions-Reports, calculate_daily_pressure-Reports,
  calculate_overload_warnings-Reports,
}

-- The window of a task is its duration before its deadline.
abbrev pub IsFeasible : FeasibilityWindow → Type 0
IsFeasible w = minus_minutes w.deadline w.duration_minutes ≡ some w.latest_start

abbrev AllFeasible : Option (List FeasibilityWindow) → Type 0
AllFeasible none = Unit
AllFeasible (some ws) = All IsFeasible ws

push_window-AllFeasible :
    (s : TaskSummary) (d : Moment) (m : ℤ) (start : Option Moment) (ws : List FeasibilityWindow)
    → minus_minutes d m ≡ start
    → All IsFeasible ws
    → AllFeasible (push_window s d m start ws)
push_window-AllFeasible s d m none ws e h = tt
push_window-AllFeasible s d m (some start) ws e h = (e, h)

add_window-AllFeasible :
    (s : TaskSummary) (d : Option Moment) (m : Option ℤ) (rest : Option (List FeasibilityWindow))
    → AllFeasible rest
    → AllFeasible (add_window s d m rest)
add_window-AllFeasible s none m rest h = h
add_window-AllFeasible s (some d) none rest h = h
add_window-AllFeasible s (some d) (some m) none h = tt
add_window-AllFeasible s (some d) (some m) (some ws) h =
    push_window-AllFeasible s d m (minus_minutes d m) ws refl h

windows_of-AllFeasible : (ss : List TaskSummary) → AllFeasible (windows_of ss)
unfolding windows_of
windows_of-AllFeasible [] = tt
windows_of-AllFeasible (s ∷ ss) =
    add_window-AllFeasible s s.deadline s.duration_minutes (windows_of ss)
      (windows_of-AllFeasible ss)

windows_of-IsFeasible :
    (ss : List TaskSummary) (ws : List FeasibilityWindow)
    → windows_of ss ≡ some ws
    → All IsFeasible ws
windows_of-IsFeasible ss ws e = rw e at (windows_of-AllFeasible ss)

-- Both tasks of the pair can only be done in the overlap of their windows, which is not empty.
abbrev pub Overlap : SchedulingPressure → Type 0
Overlap p = p.overlap_start < p.overlap_end

Overlap-in_name_order :
    (a b : FeasibilityWindow) → overlaps a b ≡ true → Overlap (to_pressure (in_name_order a b))
Overlap-in_name_order a b h = ground arith

overlaps_with-Overlap :
    (a : FeasibilityWindow) (ws : List FeasibilityWindow)
    → All (λ p. Overlap (to_pressure p)) (overlaps_with a ws)
unfolding overlaps_with
overlaps_with-Overlap a [] = tt
overlaps_with-Overlap a (b ∷ ws) = elim (Bool-cases (overlaps a b)) [
  | inl meet ↦ rw meet ((Overlap-in_name_order a b meet, overlaps_with-Overlap a ws))
  | inr apart ↦ rw apart (overlaps_with-Overlap a ws)
]

all_overlaps-Overlap :
    (ws : List FeasibilityWindow) → All (λ p. Overlap (to_pressure p)) (all_overlaps ws)
unfolding all_overlaps
all_overlaps-Overlap [] = tt
all_overlaps-Overlap (a ∷ ws) =
    All-append (λ p. Overlap (to_pressure p)) (overlaps_with a ws) (all_overlaps ws)
      (overlaps_with-Overlap a ws) (all_overlaps-Overlap ws)

convert-Overlap :
    (ps : List Pair)
    → All (λ p. Overlap (to_pressure p)) ps
    → All Overlap (convert_scheduling_pressure ps)
unfolding convert_scheduling_pressure
convert-Overlap [] h = tt
convert-Overlap (p ∷ ps) h = (h.0, convert-Overlap ps h.1)

detect-Overlap :
    (ws : List FeasibilityWindow)
    → All Overlap (convert_scheduling_pressure (detect_scheduling_pressure ws))
unfolding detect_scheduling_pressure
detect-Overlap ws = convert-Overlap (sort_by pair_key (all_overlaps ws)) (
    All-sort_by (λ p. Overlap (to_pressure p)) pair_key (all_overlaps ws) (all_overlaps-Overlap ws))

-- What an analysis of the active tasks `ss` says.
pub record Analyzes (ss : List TaskSummary) (budget : ℤ) (r : WorkloadAnalysisResult) : Type 0 where
  pub counted : r.total_tasks ≡ length ss
  pub collisions :
      Reports (λ (c : DeadlineCollision). c.deadline) (collision_entry ss) r.deadline_collisions
  pub busy : Reports (λ (w : BusyDayWarning). w.date) (busy_entry ss) r.busy_days
  pub ordered : Perm r.recommended_order ss × IsSorted sort_key r.recommended_order
  pub total : r.total_planned_minutes ≡ calculate_total_planned_minutes ss
  pub windows : All IsFeasible r.feasibility_windows × IsSorted window_key r.feasibility_windows
  pub pressure : Reports (λ (p : DailyPressure). p.date) (pressure_entry ss budget) r.daily_pressure
  pub overload :
      Reports
        (λ (w : OverloadWarning). w.date)
        (λ k. warned (pressure_entry ss budget k))
        r.overload_warnings
  pub overlapping : All Overlap r.scheduling_pressure

abbrev pub Succeeds : List TaskSummary → ℤ → Result WorkloadAnalysisResult → Type 0
Succeeds ss budget (err e) = ⊥
Succeeds ss budget (ok r) = Analyzes ss budget r

module _ (ss : List TaskSummary) (budget : ℤ) (ws : List FeasibilityWindow)
    (possible : windows_of ss ≡ some ws)
    (positive : ltb_ℤ (calculate_total_planned_minutes ss) (pos 0) ≡ false) where
  checked-Succeeds : Succeeds ss budget (checked_result ss budget (some (sort_by window_key ws)))
  checked-Succeeds = rw positive (record {
    counted = refl;
    collisions = detect_deadline_collisions-Reports ss;
    busy = detect_busy_days-Reports ss;
    ordered =
        unfold recommend_order sort_tasks in
        (sort_by-perm sort_key ss, sort_by-IsSorted sort_key ss);
    total = refl;
    windows = (
      All-sort_by IsFeasible window_key ws (windows_of-IsFeasible ss ws possible),
      sort_by-IsSorted window_key ws,
    );
    pressure = calculate_daily_pressure-Reports ss budget;
    overload =
        calculate_overload_warnings-Reports (calculate_daily_pressure ss budget)
          (pressure_entry ss budget) (calculate_daily_pressure-Reports ss budget);
    overlapping = detect-Overlap (sort_by window_key ws);
  })

  -- If the active items convert to the summaries `ss`, every window of theirs starts in the years
  -- of a datetime, and their minutes add up to no negative number, then `analyze` returns. Its
  -- collisions are, by deadline, the groups of two or more HIGH tasks; its busy days, by date,
  -- those with more than five tasks; its order is a rearrangement of `ss` by deadline, priority
  -- and name; each window starts its task's duration before its deadline; the pressure is, by
  -- date, the sum of the known durations; the overload warnings are the days whose sum is over the
  -- budget; and the overlap of each pair that presses on each other is not empty.
  pub analyze-Succeeds :
      (default : ℤ) (items : List Item) (override : Option ℤ)
      → to_summaries (filter active_item items) ≡ ok ss
      → effective_budget default override ≡ budget
      → Succeeds ss budget (analyze default items override)
  unfolding analyze calculate_feasibility_windows
  analyze-Succeeds default items override active same =
      rw (active, same) (rw (possible, sort_windows) checked-Succeeds)
