-- ===== src/SchedulerService/Due.antt =====
-- What `find_due` selects.
use personal_deadline_manage.Common.{
  ℕ, ◌≤◌, ◌≡◌, ◌∙◌, true, false, none, some, List, filter, All, All-filter, All-take, length,
  length-take-le, arith,
}
use personal_deadline_manage.Common.Order.{nat_order, pair_order}
use personal_deadline_manage.Common.Sort.{IsSorted, sort_by, All-sort_by, sort_by-IsSorted}
use personal_deadline_manage.Model.{Moment, Reminder}
use personal_deadline_manage.Store.Rows.{row, HasKeys, filter-HasKeys}
use personal_deadline_manage.Store.Queries.{
  All-row_self, row-filter, row-sort_by, sort_by-HasKeys, take_first, take_full, take-HasKeys,
  take-IsSorted,
}
use personal_deadline_manage.Store.ReminderRepository.{reminder_id, is_due, due_key, due_rows}

-- `r` is a row of the table that is due.
abbrev pub IsDueRow : Moment → List Reminder → Reminder → Type 0
IsDueRow now rs r = (row reminder_id r.id rs ≡ some r) × (is_due now r ≡ true)

-- The due rows of the table, earliest first, each once; where some are left out, the limit is
-- reached and they are none of the earlier ones.
pub record Selects (limit : ℕ) (now : Moment) (rs due : List Reminder) : Type 0 where
  pub stored : All (IsDueRow now rs) due
  pub in_order : IsSorted due_key due
  pub distinct : HasKeys reminder_id due
  pub limited : length due ≤ limit
  pub earliest :
      (r : Reminder)
      → IsDueRow now rs r
      → row reminder_id r.id due ≡ none
      → (length due ≡ limit) × All (λ d. pair_order.lt (due_key r) (due_key d) ≡ false) due

module _ (limit : ℕ) (now : Moment) (rs : List Reminder) (keys : HasKeys reminder_id rs) where
  abbrev pending_due : List Reminder
  pending_due = sort_by due_key (filter (is_due now) rs)

  due_keys : HasKeys reminder_id (filter (is_due now) rs)
  due_keys = filter-HasKeys reminder_id (is_due now) rs keys

  row-pending_due : (r : Reminder) → IsDueRow now rs r → row reminder_id r.id pending_due ≡ some r
  row-pending_due r d =
      row-sort_by reminder_id due_key r.id (filter (is_due now) rs) due_keys
      ∙ row-filter reminder_id (is_due now) r.id rs keys
      ∙ ground (arith, d.0, d.1)

  -- On reminders with unique ids, `find_due` selects rows of the table that are PENDING with their
  -- time reached, by time and then id, each once and at most `limit`; if it leaves a due row out,
  -- it has reached the limit and no selected row comes after that one.
  pub due_rows-Selects : Selects limit now rs (due_rows limit now rs)
  unfolding due_rows
  due_rows-Selects = record {
    stored = All-take (IsDueRow now rs) limit pending_due (
        All-sort_by (IsDueRow now rs) due_key (filter (is_due now) rs) (
          All-filter (λ r. row reminder_id r.id rs ≡ some r) (IsDueRow now rs) (is_due now)
            (λ r d h. (h, d)) rs (All-row_self reminder_id rs keys)));
    in_order = take-IsSorted due_key limit pending_due (sort_by-IsSorted due_key _);
    distinct =
        take-HasKeys reminder_id limit pending_due (sort_by-HasKeys reminder_id due_key _ due_keys);
    limited = length-take-le limit pending_due;
    earliest = λ r d out. (
      take_full reminder_id limit r.id pending_due r (row-pending_due r d) out,
      take_first reminder_id due_key limit r.id pending_due r (sort_by-IsSorted due_key _)
          (row-pending_due r d) out,
    );
  }
