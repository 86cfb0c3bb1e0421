-- ===== src/Store/Claims.antt =====
-- `mark_sent` as a claim on a row, by several workers.
use personal_deadline_manage.Common.{
  ℕ, ◌+◌, ◌≤◌, ◌≡◌, refl, ◌≢◌, none, some, List, [], ◌∷◌, ◌==◌, arith, Option-cases, Bool-cases,
  ==_iff, inl, inr, ◌∙◌, if◌then◌else◌,
}
use personal_deadline_manage.Model.{Uuid, Moment, Reminder, is_pending}
use personal_deadline_manage.Store.Transaction.{Db}
use personal_deadline_manage.Store.Rows.{
  row, HasKeys, id-row, count_where, row-update_where, update_where-HasKeys,
}
use personal_deadline_manage.Store.ReminderRepository.{
  reminder_id, is_due, claimable, as_sent, claim,
}

count-claimable-none :
    (k : Uuid) (now : Moment) (rs : List Reminder)
    → row reminder_id k rs ≡ none
    → count_where (claimable k now) rs ≡ 0
count-claimable-none k now [] h = refl
count-claimable-none k now (r ∷ rs) h = ground (arith, count-claimable-none k now rs)

-- The row count is 1 if the row is there and due, and 0 otherwise.
pub count-claimable :
    (k : Uuid) (now : Moment) (rs : List Reminder)
    → HasKeys reminder_id rs
    → count_where (claimable k now) rs
      ≡ elim (row reminder_id k rs) [ none ↦ 0 | some r ↦ if is_due now r then 1 else 0 ]
count-claimable k now [] h = refl
count-claimable k now (r ∷ rs) h =
    ground (arith, count-claimable-none k now rs, count-claimable k now rs h.1)

pub row-claim :
    (k j : Uuid) (now : Moment) (db : Db)
    → row reminder_id j (claim k now db).1.reminders ≡ elim (row reminder_id j db.reminders) [
      | none ↦ none
      | some r ↦ some (if claimable k now r then as_sent now r else r)
    ]
unfolding claim
row-claim k j now db =
    row-update_where reminder_id (claimable k now) (as_sent now) (λ r. refl) j db.reminders

-- A claim touches no other row.
pub row-claim_ne :
    (k j : Uuid) (now : Moment) (db : Db)
    → k ≢ j
    → row reminder_id j (claim k now db).1.reminders ≡ row reminder_id j db.reminders
row-claim_ne k j now db other = elim (Option-cases (row reminder_id j db.reminders)) [
  | inl free ↦ row-claim k j now db ∙ rw free
  | inr (r, here) ↦
      row-claim k j now db ∙ ground (arith, here, id-row reminder_id j db.reminders r here)
]

-- The rows that the claims of any workers have won for the reminder `k`, one claim after another.
unfoldable pub wins : Uuid → List (Uuid × Moment) → Db → ℕ
wins k [] db = 0
wins k ((j, now) ∷ claims) db =
    (if j == k then count_where (claimable j now) db.reminders else 0)
    + wins k claims (claim j now db).1

abbrev unsent : Uuid → Db → ℕ
unsent k db = elim (row reminder_id k db.reminders) [
  | none ↦ 0
  | some r ↦ if is_pending r.status then 1 else 0
]

keys-claim :
    (k : Uuid) (now : Moment) (db : Db)
    → HasKeys reminder_id db.reminders
    → HasKeys reminder_id (claim k now db).1.reminders
unfolding claim
keys-claim k now db h =
    update_where-HasKeys reminder_id (claimable k now) (as_sent now) (λ r. refl) db.reminders h

unsent-claim :
    (k j : Uuid) (now : Moment) (db : Db)
    → HasKeys reminder_id db.reminders
    → (if j == k then count_where (claimable j now) db.reminders else 0)
        + unsent k (claim j now db).1
      ≤ unsent k db
unsent-claim k j now db keys = elim (Bool-cases (j == k)) [
  | inl same ↦
      (let here : j ≡ k = (==_iff j k).0 same in
        elim (Option-cases (row reminder_id k db.reminders)) [
          | inl free ↦
              ground
                (arith, here, free, count-claimable j now db.reminders keys, row-claim j k now db)
          | inr (r, found) ↦ ground (
            arith,
            here,
            found,
            id-row reminder_id k db.reminders r found,
            count-claimable j now db.reminders keys,
            row-claim j k now db,
          )
        ])
  | inr other ↦ ground (arith, row-claim_ne j k now db)
]

wins-le-unsent :
    (k : Uuid) (claims : List (Uuid × Moment)) (db : Db)
    → HasKeys reminder_id db.reminders
    → wins k claims db ≤ unsent k db
unfolding wins
wins-le-unsent k [] db keys = omega arith
wins-le-unsent k ((j, now) ∷ claims) db keys = omega (
  arith,
  unsent-claim k j now db keys,
  wins-le-unsent k claims (claim j now db).1 (keys-claim j now db keys),
)

-- However the claims of several workers follow one another, on reminders with unique ids, the rows
-- that they win for one reminder are one at most.
pub wins_once :
    (k : Uuid) (claims : List (Uuid × Moment)) (db : Db)
    → HasKeys reminder_id db.reminders
    → wins k claims db ≤ 1
wins_once k claims db keys = ground (arith, wins-le-unsent k claims db keys)
