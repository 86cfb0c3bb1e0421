-- ===== src/ActionExecutor/Ranges.antt =====
-- The explicit range that the validator accepts is the one that the executor analyses.
use personal_deadline_manage.Common.{◌≡◌, refl, ◌≤◌, true, false, Option, none, some, arith, ltb}
use personal_deadline_manage.Common.Int.{ℤ}
use personal_deadline_manage.Model.{Uuid, Text, Moment}
use personal_deadline_manage.Store.{ok, Session}
use personal_deadline_manage.TaskModule
use personal_deadline_manage.DateRange
use personal_deadline_manage.DateRange.{DateRangeExpression}
use personal_deadline_manage.Guardrails.{ActionProposal}
use personal_deadline_manage.Parameters.{
  Json, null, composite, text, integer, date_range_expression, explicit_start, explicit_end,
  Parameters, get, get_or_null, expression_of, Parsed, parse_iso_datetime, to_datetime,
  opt_datetime,
}
use personal_deadline_manage.ActionValidator.{ValidationStatus, is_analysis, validate}
use personal_deadline_manage.ActionValidator.Accepts.{validate-IsComplete, analysis_range}
use personal_deadline_manage.ActionExecutor.Dispatch.{named_expression, tasks_in_range}

module _ (fromisoformat : Text → Parsed) where
  opt_datetime-ok :
      (v : Json) (t : Moment)
      → parse_iso_datetime fromisoformat v ≡ ok t
      → opt_datetime fromisoformat v ≡ ok (some t)
  unfolding parse_iso_datetime opt_datetime to_datetime
  opt_datetime-ok (text c) t h = rw h refl
  opt_datetime-ok null t h = absurd (ground arith)
  opt_datetime-ok composite t h = absurd (ground arith)
  opt_datetime-ok (integer i) t h = absurd (ground arith)

-- The value under the key, as the validator and the executor read it.
named_expression-get :
    (found : Option Json) (e : DateRangeExpression)
    → expression_of (elim found [ none ↦ null | some v ↦ v ]) ≡ some e
    → (v : Json) × (found ≡ some v) × (named_expression v ≡ ok (some e))
unfolding expression_of
named_expression-get none e h = absurd (ground arith)
named_expression-get (some null) e h = absurd (ground arith)
named_expression-get (some composite) e h = absurd (ground arith)
named_expression-get (some (integer i)) e h = absurd (ground arith)
named_expression-get (some (text t)) e h = (text t, refl, rw (named_expression, h) refl)

module _ (fromisoformat : Text → Parsed) (driver_text : Json → Option Text) (daily : ℤ)
    (fresh : Uuid) (now : Moment) where
  tasks_in_range_explicit :
      (ps : Parameters) (v : Json) (start end : Moment) (s : Session)
      → get date_range_expression ps ≡ some v
      → named_expression v ≡ ok (some DateRangeExpression.explicit_range)
      → opt_datetime fromisoformat (get_or_null explicit_start ps) ≡ ok (some start)
      → opt_datetime fromisoformat (get_or_null explicit_end ps) ≡ ok (some end)
      → ltb end start ≡ false
      → tasks_in_range fromisoformat driver_text daily fresh now ps s
        ≡ TaskModule.find_tasks_by_deadline_range start end s
  unfolding tasks_in_range DateRange.resolve DateRange.explicit_bounds
  tasks_in_range_explicit ps v start end s here named from to ordered =
      rw (here, named) (rw (from, to) (rw ordered refl))

  -- For an analysis of an explicit range that `validate` finds VALID, both bounds parse and are in
  -- order, and the executor analyses exactly the tasks that it finds between these two bounds, at
  -- whatever time.
  pub tasks_in_range-Ordered :
      (p : ActionProposal Parameters) (s : Session)
      → validate fromisoformat p ≡ ok ValidationStatus.valid
      → is_analysis p.action_type ≡ true
      → expression_of (get_or_null date_range_expression p.parameters)
        ≡ some DateRangeExpression.explicit_range
      → (start : Moment) × (end : Moment) × (start ≤ end)
        × (parse_iso_datetime fromisoformat (get_or_null explicit_start p.parameters) ≡ ok start)
        × (parse_iso_datetime fromisoformat (get_or_null explicit_end p.parameters) ≡ ok end)
        × (tasks_in_range fromisoformat driver_text daily fresh now p.parameters s
            ≡ TaskModule.find_tasks_by_deadline_range start end s)
  tasks_in_range-Ordered p s h analysis explicit =
      let range =
        analysis_range fromisoformat p.action_type p.parameters
          (validate-IsComplete fromisoformat p h).range analysis in
      let (start, end, from, to, ordered) = rw explicit at range in
      let (v, here, named) =
        named_expression-get (get date_range_expression p.parameters) _ explicit in
      (
        start,
        end,
        ordered,
        from,
        to,
        tasks_in_range_explicit p.parameters v start end s here named
            (opt_datetime-ok fromisoformat _ start from) (opt_datetime-ok fromisoformat _ end to)
            (ground (arith, ordered)),
      )
