-- ===== src/ReschedulingConstraintService/Slots.antt =====
-- The slot that `find_candidate_slots` returns, and what `validate_candidate` accepts.
use personal_deadline_manage.Common.{
  ℕ, zero, suc, ◌+◌, ◌*◌, ◌≤◌, ◌<◌, ◌≡◌, refl, ◌∙◌, Bool, true, false, Option, none, some, List, [],
  ◌∷◌, arith, ltb, if◌then◌else◌, All, Bool-cases, inl, inr,
}
use personal_deadline_manage.Common.Int.{ℤ, pos, negsuc, ltb_ℤ, leb_ℤ}
use personal_deadline_manage.Model.{Moment}
use personal_deadline_manage.Model.Time.{minute, minus_minutes, minutes_between}
use personal_deadline_manage.Store.{Result, ok, err}
use personal_deadline_manage.Workload.{TaskSummary, CandidateSlot}
use personal_deadline_manage.ReschedulingConstraintService.{
  has_capacity, budget_of, slot_from, slots_for, find_candidate_slots, fits_from, fits,
  validate_candidate,
}

-- A slot from the latest start to the deadline lasts as long as the task.
slot_length :
    (deadline m start : ℕ)
    → minus_minutes deadline (pos m) ≡ some start
    → minutes_between start deadline ≡ pos m
unfolding minus_minutes minutes_between
slot_length deadline m start h = ground arith

slot_start :
    (deadline m start : ℕ)
    → minus_minutes deadline (pos m) ≡ some start
    → start + m * minute ≡ deadline
unfolding minus_minutes
slot_start deadline m start h = ground arith

-- A slot as long as the task between the latest start and the deadline is all of that time.
slot_unique :
    (start end latest deadline m : ℕ)
    → latest + m * minute ≡ deadline
    → ltb_ℤ (minutes_between start end) (pos m) ≡ false
    → end ≤ deadline
    → latest ≤ start
    → start < end
    → (start ≡ latest) × (end ≡ deadline)
unfolding minutes_between
slot_unique start end latest deadline m h long before after forward = ground arith

pub positive : (m : ℕ) → leb_ℤ (pos (suc m)) (pos 0) ≡ false
positive m = ground arith

abbrev Accepted : (CandidateSlot → Result Bool) → Result (List CandidateSlot) → Type 0
Accepted check (err e) = Unit
Accepted check (ok slots) = All (λ slot. check slot ≡ ok true) slots

module _ (task : TaskSummary) (all_tasks : Option (List TaskSummary)) (budget : ℤ) where
  abbrev whole : Moment → Moment → ℕ → CandidateSlot
  whole start deadline m = record { start = start; end = deadline; available_minutes = pos (suc m) }

  slot_from-whole :
      (deadline : Moment) (m : ℕ) (start : Moment)
      → minus_minutes deadline (pos (suc m)) ≡ some start
      → slot_from task deadline (pos (suc m)) all_tasks budget (some start) ≡ (
          if has_capacity task (pos (suc m)) start all_tasks budget
          then ok (whole start deadline m ∷ [])
          else ok [])
  slot_from-whole deadline m start h = ground (arith, slot_length deadline (suc m) start h)

  fits-whole :
      (deadline : Moment) (m : ℕ) (start : Moment)
      → minus_minutes deadline (pos (suc m)) ≡ some start
      → fits task (some deadline) (some (pos (suc m))) (whole start deadline m) all_tasks budget
        ≡ ok (has_capacity task (pos (suc m)) start all_tasks budget)
  fits-whole deadline m start h =
      let long = slot_length deadline (suc m) start h in
      let begins = slot_start deadline (suc m) start h in ground (arith, h, long, begins)

  slot_from-Accepted :
      (deadline : Moment) (m : ℕ) (start : Option Moment)
      → minus_minutes deadline (pos (suc m)) ≡ start
      → Accepted
          (λ slot. fits task (some deadline) (some (pos (suc m))) slot all_tasks budget)
          (slot_from task deadline (pos (suc m)) all_tasks budget start)
  slot_from-Accepted deadline m none h = tt
  slot_from-Accepted deadline m (some start) h =
      rw (slot_from-whole deadline m start h)
        (elim (Bool-cases (has_capacity task (pos (suc m)) start all_tasks budget)) [
          | inl free ↦ rw free ((fits-whole deadline m start h ∙ rw free refl, tt))
          | inr taken ↦ rw taken tt
        ])

  slots_positive :
      (deadline : Moment) (m : ℕ)
      → slots_for task (some deadline) (some (pos (suc m))) all_tasks budget
        ≡ slot_from task deadline
            (pos (suc m))
            all_tasks
            budget
            (minus_minutes deadline (pos (suc m)))
  slots_positive deadline m = rw (positive m) refl

  slots_negative :
      (deadline : Moment) (m : ℕ)
      → slots_for task (some deadline) (some (negsuc m)) all_tasks budget ≡ ok []
  slots_negative deadline m = ground arith

  slots_for-Accepted :
      (deadline : Option Moment) (minutes : Option ℤ)
      → Accepted
          (λ slot. fits task deadline minutes slot all_tasks budget)
          (slots_for task deadline minutes all_tasks budget)
  slots_for-Accepted deadline none = tt
  slots_for-Accepted none (some minutes) = tt
  slots_for-Accepted (some deadline) (some (negsuc m)) = rw (slots_negative deadline m) tt
  slots_for-Accepted (some deadline) (some (pos zero)) = tt
  slots_for-Accepted (some deadline) (some (pos (suc m))) =
      rw (slots_positive deadline m)
        (slot_from-Accepted deadline m (minus_minutes deadline (pos (suc m))) refl)

  fits_from-slot :
      (slot : CandidateSlot) (deadline : Moment) (m : ℕ) (latest : Option Moment)
      → minus_minutes deadline (pos (suc m)) ≡ latest
      → ltb_ℤ (minutes_between slot.start slot.end) (pos (suc m)) ≡ false
      → ltb deadline slot.end ≡ false
      → fits_from task (pos (suc m)) slot all_tasks budget latest ≡ ok true
      → slot_from task deadline (pos (suc m)) all_tasks budget latest
        ≡ ok (record { start = slot.start; end = slot.end; available_minutes = pos (suc m) } ∷ [])
  fits_from-slot slot deadline m none h long before accepted = cc
  fits_from-slot slot deadline m (some latest) h long before accepted =
      let begins = slot_start deadline (suc m) latest h in
      let after : latest ≤ slot.start = ground arith in
      let forward : slot.start < slot.end = ground arith in
      let same =
        slot_unique slot.start slot.end latest deadline (suc m) begins long (ground arith) after
          forward in
      let free : has_capacity task (pos (suc m)) slot.start all_tasks budget ≡ true =
        ground arith in
      let free_too : has_capacity task (pos (suc m)) latest all_tasks budget ≡ true =
        rw same.0 at free in
      slot_from-whole deadline m latest h ∙ rw free_too (ground (arith, same.0, same.1))

  fits-slot :
      (slot : CandidateSlot) (deadline : Option Moment) (minutes : ℤ)
      → fits task deadline (some minutes) slot all_tasks budget ≡ ok true
      → slots_for task deadline (some minutes) all_tasks budget
        ≡ ok (record { start = slot.start; end = slot.end; available_minutes = minutes } ∷ [])
  fits-slot slot none minutes accepted = cc
  fits-slot slot (some deadline) (negsuc m) accepted = ground arith
  fits-slot slot (some deadline) (pos zero) accepted = cc
  fits-slot slot (some deadline) (pos (suc m)) accepted =
      let long : ltb_ℤ (minutes_between slot.start slot.end) (pos (suc m)) ≡ false = ground arith in
      let before : ltb deadline slot.end ≡ false = ground arith in
      rw (positive m) (
        fits_from-slot slot deadline m (minus_minutes deadline (pos (suc m))) refl long before
          (ground arith))

module _ (default : ℤ) (task : TaskSummary) (all_tasks : Option (List TaskSummary))
    (budget_minutes : Option ℤ) where
  -- Every slot that `find_candidate_slots` returns is accepted by `validate_candidate` with the
  -- same task, workload and budget.
  pub find_candidate_slots-valid :
      (slots : List CandidateSlot)
      → find_candidate_slots default task all_tasks budget_minutes ≡ ok slots
      → All (λ slot. validate_candidate default task slot all_tasks budget_minutes ≡ ok true) slots
  unfolding find_candidate_slots validate_candidate
  find_candidate_slots-valid slots found = rw found at (
      slots_for-Accepted task all_tasks (budget_of default budget_minutes) task.deadline
        task.duration_minutes)

  -- If `validate_candidate` accepts a slot for a task of known duration, then
  -- `find_candidate_slots`, with the same workload and budget, returns exactly that slot's time,
  -- with the duration as its available minutes.
  pub validate_candidate_unique :
      (slot : CandidateSlot) (minutes : ℤ)
      → task.duration_minutes ≡ some minutes
      → validate_candidate default task slot all_tasks budget_minutes ≡ ok true
      → find_candidate_slots default task all_tasks budget_minutes
        ≡ ok (record { start = slot.start; end = slot.end; available_minutes = minutes } ∷ [])
  unfolding find_candidate_slots validate_candidate
  validate_candidate_unique slot minutes known accepted = rw known (
      fits-slot task all_tasks (budget_of default budget_minutes) slot task.deadline minutes
        (rw known at accepted))
