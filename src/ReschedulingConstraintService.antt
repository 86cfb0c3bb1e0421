-- ===== src/ReschedulingConstraintService.antt =====
-- services/rescheduling_constraint_service.py.
pub mod Slots
use personal_deadline_manage.Common.{
  ℕ, Bool, true, false, Option, none, some, List, [], ◌∷◌, ◌==◌, ltb, leb, not, ◌||◌, if◌then◌else◌,
}
use personal_deadline_manage.Common.Int.{ℤ, pos, ◌+ℤ◌, ltb_ℤ, leb_ℤ}
use personal_deadline_manage.Model.{Moment}
use personal_deadline_manage.Model.Time.{date, minus_minutes, minutes_between}
use personal_deadline_manage.Store.{Result, ok, err, overflow_error}
use personal_deadline_manage.Workload.{TaskSummary, CandidateSlot, is_active}

-- The minutes that another task takes of the day `day`: none, if the loop goes on to the next.
abbrev pub taken_on : ℕ → TaskSummary → Option Moment → Option ℤ → Option ℤ
taken_on day other none minutes = none
taken_on day other (some deadline) none = none
taken_on day other (some deadline) (some minutes) =
    if not (date deadline == day)
    then none
    else if not (is_active other.status)
    then none
    else some minutes

abbrev pub add_taken : ℤ → Option ℤ → ℤ
add_taken total none = total
add_taken total (some minutes) = total +ℤ minutes

unfoldable pub total_on_day : TaskSummary → ℕ → ℤ → List TaskSummary → ℤ
unfolding ◌+ℤ◌
total_on_day task day total [] = total
total_on_day task day total (other ∷ others) =
    let taken = taken_on day other other.deadline other.duration_minutes in
    let next = if other.id == task.id then total else add_taken total taken in
    total_on_day task day next others

unfoldable pub has_remaining_capacity : TaskSummary → ℤ → ℕ → List TaskSummary → ℤ → Bool
unfolding total_on_day ◌+ℤ◌
has_remaining_capacity task minutes day all_tasks budget =
    leb_ℤ (total_on_day task day (pos 0) all_tasks +ℤ minutes) budget

-- The check is left out where no workload is given, or an empty one.
abbrev pub has_capacity : TaskSummary → ℤ → Moment → Option (List TaskSummary) → ℤ → Bool
has_capacity task minutes start none budget = true
has_capacity task minutes start (some []) budget = true
has_capacity task minutes start (some (t ∷ ts)) budget =
    has_remaining_capacity task minutes (date start) (t ∷ ts) budget

abbrev pub budget_of : ℤ → Option ℤ → ℤ
budget_of default none = default
budget_of default (some budget) = budget

-- With the latest start. Where the slot is longer than the task, the code computes this start
-- once more.
abbrev pub slot_from :
    TaskSummary
    → Moment
    → ℤ
    → Option (List TaskSummary)
    → ℤ
    → Option Moment
    → Result (List CandidateSlot)
slot_from task deadline minutes all_tasks budget none = err overflow_error
slot_from task deadline minutes all_tasks budget (some start) =
    if ltb_ℤ (minutes_between start deadline) minutes
    then ok []
    else if not (has_capacity task minutes start all_tasks budget)
    then ok []
    else ok (record { start = start; end = deadline; available_minutes = minutes } ∷ [])

abbrev pub slots_for :
    TaskSummary
    → Option Moment
    → Option ℤ
    → Option (List TaskSummary)
    → ℤ
    → Result (List CandidateSlot)
slots_for task deadline none all_tasks budget = ok []
slots_for task none (some minutes) all_tasks budget = ok []
slots_for task (some deadline) (some minutes) all_tasks budget =
    let found = slot_from task deadline minutes all_tasks budget (minus_minutes deadline minutes) in
    if leb_ℤ minutes (pos 0) then ok [] else found

unfoldable pub find_candidate_slots :
    ℤ → TaskSummary → Option (List TaskSummary) → Option ℤ → Result (List CandidateSlot)
unfolding has_remaining_capacity minus_minutes minutes_between
find_candidate_slots default task all_tasks budget_minutes =
    slots_for task task.deadline task.duration_minutes all_tasks (budget_of default budget_minutes)

-- The checks that follow the one on the latest start.
abbrev pub fits_from :
    TaskSummary → ℤ → CandidateSlot → Option (List TaskSummary) → ℤ → Option Moment → Result Bool
fits_from task minutes slot all_tasks budget none = err overflow_error
fits_from task minutes slot all_tasks budget (some latest_start) =
    if ltb slot.start latest_start
    then ok false
    else if leb slot.end slot.start
    then ok false
    else if ltb_ℤ slot.available_minutes minutes
    then ok false
    else ok (has_capacity task minutes slot.start all_tasks budget)

abbrev pub fits :
    TaskSummary
    → Option Moment
    → Option ℤ
    → CandidateSlot
    → Option (List TaskSummary)
    → ℤ
    → Result Bool
fits task deadline none slot all_tasks budget = ok false
fits task none (some minutes) slot all_tasks budget = ok false
fits task (some deadline) (some minutes) slot all_tasks budget =
    let later = fits_from task minutes slot all_tasks budget (minus_minutes deadline minutes) in
    if leb_ℤ minutes (pos 0)
    then ok false
    else if ltb_ℤ (minutes_between slot.start slot.end) minutes
    then ok false
    else if ltb deadline slot.end
    then ok false
    else later

unfoldable pub validate_candidate :
    ℤ → TaskSummary → CandidateSlot → Option (List TaskSummary) → Option ℤ → Result Bool
unfolding has_remaining_capacity minus_minutes minutes_between
validate_candidate default task slot all_tasks budget_minutes =
    fits task task.deadline task.duration_minutes slot all_tasks (budget_of default budget_minutes)
