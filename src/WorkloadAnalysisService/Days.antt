-- ===== src/WorkloadAnalysisService/Days.antt =====
-- The reports by day and by deadline.
use personal_deadline_manage.Common.{
  ℕ, ◌≡◌, refl, ◌∙◌, true, Option, none, some, List, [], ◌∷◌, arith, ltb, leb, length, filter,
  if◌then◌else◌,
}
use personal_deadline_manage.Common.Int.{ℤ, pos}
use personal_deadline_manage.Common.Order.{nat_order}
use personal_deadline_manage.Model.{Moment}
use personal_deadline_manage.Store.Rows.{filter-HasKeys}
use personal_deadline_manage.Store.Queries.{row-filter}
use personal_deadline_manage.Workload.{
  TaskSummary, DeadlineCollision, BusyDayWarning, DailyPressure, OverloadWarning,
}
use personal_deadline_manage.Workload.Groups.{collect, under, group_of}
use personal_deadline_manage.Workload.Reports.{
  Reports, Reports_mono, sort_by-Reports, entry_of, filter_all, row-map, map-HasKeys,
  filter-IsSorted, map_option, keep_if,
}
use personal_deadline_manage.WorkloadAnalysisService.{
  busy_key, busy_day, collision_key, collision, pressure_key, pressure, is_overloaded, overload,
  sort_tasks, total_minutes, detect_busy_days, detect_deadline_collisions, calculate_daily_pressure,
  calculate_overload_warnings,
}

-- The warning for the day `k`.
abbrev pub busy_entry : List TaskSummary → ℕ → Option BusyDayWarning
busy_entry ss k =
    let ts = under busy_key k ss in
    if ltb 5 (length ts)
    then some (record { date = k; task_count = length ts; tasks = sort_tasks ts })
    else none

module _ (ss : List TaskSummary) where
  pub detect_busy_days-Reports :
      Reports (λ (w : BusyDayWarning). w.date) (busy_entry ss) (detect_busy_days ss)
  unfolding detect_busy_days
  detect_busy_days-Reports =
      Reports_mono (λ (w : BusyDayWarning). w.date) _ (busy_entry ss) (detect_busy_days ss)
        (λ k. entry_of busy_day (λ g. ltb 5 (length g.1)) k (under busy_key k ss) refl)
        (sort_by-Reports busy_key (λ (w : BusyDayWarning). w.date) busy_day (λ g. refl)
          (λ g. ltb 5 (length g.1)) ss)

-- The collision at the deadline `k`.
abbrev pub collision_entry : List TaskSummary → Moment → Option DeadlineCollision
collision_entry ss k =
    let ts = under collision_key k ss in
    if leb 2 (length ts) then some (record { deadline = k; tasks = sort_tasks ts }) else none

module _ (ss : List TaskSummary) where
  pub detect_deadline_collisions-Reports :
      Reports
        (λ (c : DeadlineCollision). c.deadline)
        (collision_entry ss)
        (detect_deadline_collisions ss)
  unfolding detect_deadline_collisions
  detect_deadline_collisions-Reports =
      Reports_mono (λ (c : DeadlineCollision). c.deadline) _ (collision_entry ss)
        (detect_deadline_collisions ss)
        (λ k. entry_of collision (λ g. leb 2 (length g.1)) k (under collision_key k ss) refl)
        (sort_by-Reports collision_key (λ (c : DeadlineCollision). c.deadline) collision (λ g. refl)
          (λ g. leb 2 (length g.1)) ss)

-- The pressure of the day `k`, if a task with a duration is due on it.
abbrev pub pressure_on : ℤ → ℕ → List TaskSummary → Option DailyPressure
pressure_on budget k [] = none
pressure_on budget k (t ∷ ts) = some (record {
  date = k;
  planned_minutes = total_minutes (pos 0) (t ∷ ts);
  budget_minutes = budget;
  tasks = sort_tasks (t ∷ ts);
})

abbrev pub pressure_entry : List TaskSummary → ℤ → ℕ → Option DailyPressure
pressure_entry ss budget k = pressure_on budget k (under pressure_key k ss)

grouped-pressure_on :
    (budget : ℤ) (k : ℕ) (ts : List TaskSummary)
    → map_option (pressure budget) (keep_if (λ g. true) (group_of k ts)) ≡ pressure_on budget k ts
grouped-pressure_on budget k [] = refl
grouped-pressure_on budget k (t ∷ ts) = refl

module _ (ss : List TaskSummary) (budget : ℤ) where
  pub calculate_daily_pressure-Reports :
      Reports
        (λ (p : DailyPressure). p.date)
        (pressure_entry ss budget)
        (calculate_daily_pressure ss budget)
  unfolding calculate_daily_pressure
  calculate_daily_pressure-Reports =
      Reports_mono (λ (p : DailyPressure). p.date) _ (pressure_entry ss budget)
        (calculate_daily_pressure ss budget)
        (λ k. grouped-pressure_on budget k (under pressure_key k ss))
        (rw (filter_all (collect pressure_key ss [])) at (
          sort_by-Reports pressure_key (λ (p : DailyPressure). p.date) (pressure budget) (λ g. refl)
            (λ g. true) ss))

-- A warning for a day whose planned minutes are more than its budget.
abbrev pub warned : Option DailyPressure → Option OverloadWarning
warned none = none
warned (some p) = if is_overloaded p then some (overload p) else none

module _ (ps : List DailyPressure) where
  -- Of a report by day, the overload warnings are the overloaded days.
  pub calculate_overload_warnings-Reports :
      (entry : ℕ → Option DailyPressure)
      → Reports (λ (p : DailyPressure). p.date) entry ps
      → Reports
          (λ (w : OverloadWarning). w.date)
          (λ k. warned (entry k))
          (calculate_overload_warnings ps)
  unfolding calculate_overload_warnings
  calculate_overload_warnings-Reports entry r =
      let day = λ (p : DailyPressure). p.date in
      let warning_day = λ (w : OverloadWarning). w.date in
      record {
        entries = λ k.
            row-map day warning_day overload (λ p. refl) k (filter is_overloaded ps)
            ∙ rw (row-filter day is_overloaded k ps r.distinct) (ground (arith, r.entries k));
        distinct =
            map-HasKeys day warning_day overload (λ p. refl) (filter is_overloaded ps)
              (filter-HasKeys day is_overloaded ps r.distinct);
        in_order = filter-IsSorted day warning_day overload (λ p. refl) is_overloaded ps r.in_order;
      }
