-- ===== src/PendingConfirmationModule/Verdict.antt =====
-- What `confirm` answers when nothing disturbs it.
use personal_deadline_manage.Common.{
  ◌≡◌, refl, ◌∙◌, Bool, true, false, inl, inr, Option, none, some, List, [], ◌∷◌, arith, Bool-cases,
  Option-cases, if◌then◌else◌, ltb,
}
use personal_deadline_manage.Model.{
  Uuid, Moment, PendingConfirmation, PendingConfirmationStatus, same_user,
}
use personal_deadline_manage.Store.{
  Db, Result, ok, Session, commit, rollback, open_session, statement, pure, or_rollback,
}
use personal_deadline_manage.Store.Rows.{
  row, HasKeys, put, id-row, count_where, row-update_where, row-put_self,
}
use personal_deadline_manage.Store.ConfirmationRepository.{
  confirmation_id, as_expired, confirmable, as_confirmed, win, save_expired,
}
use personal_deadline_manage.PendingConfirmationModule.{
  ConfirmOutcome, ConfirmResult, no_confirmation, diagnosis, commit_after, won, by_status, diagnose,
  after_update, confirm,
}

-- The answer for the row of a user, by its status and whether its time is left.
abbrev pub verdict : Moment → PendingConfirmation → PendingConfirmationStatus → ConfirmResult
verdict now c PendingConfirmationStatus.confirmed = diagnosis ConfirmOutcome.already_confirmed c
verdict now c PendingConfirmationStatus.cancelled = diagnosis ConfirmOutcome.cancelled c
verdict now c PendingConfirmationStatus.expired = diagnosis ConfirmOutcome.expired c
verdict now c PendingConfirmationStatus.pending =
    if ltb now c.expires_at
    then diagnosis ConfirmOutcome.confirmed (as_confirmed c)
    else diagnosis ConfirmOutcome.expired (as_expired c)

abbrev pub answer : Moment → Option Uuid → Option PendingConfirmation → ConfirmResult
answer now user none = no_confirmation
answer now user (some c) =
    if same_user c.user_id user then verdict now c c.status else no_confirmation

-- The row that an answer leaves: the one that it shows, and the old one where it shows none.
abbrev pub left :
    Option PendingConfirmation → Option PendingConfirmation → Option PendingConfirmation
left found none = found
left found (some c) = some c

count-confirmable-none :
    (k : Uuid) (user : Option Uuid) (now : Moment) (cs : List PendingConfirmation)
    → row confirmation_id k cs ≡ none
    → count_where (confirmable k user now) cs ≡ 0
count-confirmable-none k user now [] h = refl
count-confirmable-none k user now (c ∷ cs) h = ground (arith, count-confirmable-none k user now cs)

-- The UPDATE of `mark_confirmed` matches one row or none.
pub count-confirmable :
    (k : Uuid) (user : Option Uuid) (now : Moment) (cs : List PendingConfirmation)
    → HasKeys confirmation_id cs
    → count_where (confirmable k user now) cs ≡ elim (row confirmation_id k cs) [
      | none ↦ 0
      | some c ↦ if confirmable k user now c then 1 else 0
    ]
count-confirmable k user now [] h = refl
count-confirmable k user now (c ∷ cs) h =
    ground (arith, count-confirmable-none k user now cs, count-confirmable k user now cs h.1)

pub row-win :
    (k j : Uuid) (user : Option Uuid) (now : Moment) (db : Db)
    → row confirmation_id j (win k user now db).1.confirmations
      ≡ elim (row confirmation_id j db.confirmations) [
        | none ↦ none
        | some c ↦ some (if confirmable k user now c then as_confirmed c else c)
      ]
unfolding win
row-win k j user now db =
    row-update_where confirmation_id (confirmable k user now) as_confirmed (λ c. refl) j
      db.confirmations

-- An answer, and the row `k` that is committed with it.
abbrev pub Gives :
    Uuid → Option PendingConfirmation → ConfirmResult → Result ConfirmResult × Session → Type 0
Gives k found result (r, s) =
    (r ≡ ok result)
    × (row confirmation_id k s.committed.confirmations ≡ left found result.confirmation)

module _ (k : Uuid) (user : Option Uuid) where
  won_calm :
      (before db : Db) (c : PendingConfirmation)
      → row confirmation_id k db.confirmations ≡ some c
      → (found : Option PendingConfirmation)
      → Gives k found
          (diagnosis ConfirmOutcome.confirmed c)
          (won none k (record { committed = before; working = db; world = [] }))
  unfolding won statement commit_after commit
  won_calm before db c here found = rw here (rw here ((refl, here)))

  row-put_expired :
      (db : Db) (c : PendingConfirmation)
      → row confirmation_id k db.confirmations ≡ some c
      → row confirmation_id k (put confirmation_id (as_expired c) db.confirmations)
        ≡ some (as_expired c)
  row-put_expired db c here =
      let same : c.id ≡ k = id-row confirmation_id k db.confirmations c here in
      ground (arith, same, here, row-put_self confirmation_id (as_expired c) db.confirmations c)

  abbrev pub expired_in : Db → PendingConfirmation → Db
  expired_in db c = record db {
    confirmations = put confirmation_id (as_expired c) db.confirmations;
  }

  pub save_expired_found :
      (db : Db) (c : PendingConfirmation)
      → row confirmation_id c.id db.confirmations ≡ some c
      → save_expired c.id db ≡ (ok tt, expired_in db c)
  unfolding save_expired
  save_expired_found db c here = rw (here, save_expired) refl

  pub commit_after_calm :
      (run : Db → Result (Unit {0}) × Db) (before db db' : Db)
      → run db ≡ (ok tt, db')
      → commit_after (statement run) (record { committed = before; working = db; world = [] })
        ≡ (ok tt, record { committed = db'; working = db'; world = [] })
  unfolding statement commit_after commit rollback
  commit_after_calm run before db db' h = rw (h, or_rollback) refl

  save_calm :
      (before db : Db) (c : PendingConfirmation)
      → row confirmation_id k db.confirmations ≡ some c
      → row confirmation_id c.id db.confirmations ≡ some c
      → (found : Option PendingConfirmation)
      → Gives k found (diagnosis ConfirmOutcome.expired (as_expired c)) (
          by_status c PendingConfirmationStatus.pending
            (record { committed = before; working = db; world = [] }))
  unfolding by_status
  save_calm before db c here again found =
      rw
        (commit_after_calm (save_expired c.id) before db (expired_in db c)
          (save_expired_found db c again))
        ((refl, row-put_expired db c here))

  module _ (now : Moment) (before db : Db) (c : PendingConfirmation)
      (here : row confirmation_id k db.confirmations ≡ some c)
      (there : row confirmation_id k before.confirmations ≡ some c)
      (refused : confirmable k user now c ≡ false) where
    c_id : c.id ≡ k
    c_id = id-row confirmation_id k db.confirmations c here

    by_status_calm :
        (status : PendingConfirmationStatus)
        → c.status ≡ status
        → same_user c.user_id user ≡ true
        → Gives k
            (some c)
            (verdict now c status)
            (by_status c status (record { committed = before; working = db; world = [] }))
    unfolding by_status
    by_status_calm PendingConfirmationStatus.confirmed e own = (refl, there)
    by_status_calm PendingConfirmationStatus.cancelled e own = (refl, there)
    by_status_calm PendingConfirmationStatus.expired e own = (refl, there)
    by_status_calm PendingConfirmationStatus.pending e own =
        let late : ltb now c.expires_at ≡ false = ground (arith, refused, c_id, own, e) in
        rw late (save_calm before db c here (ground (arith, here, c_id)) (some c))

    diagnose_own :
        (own : Bool)
        → same_user c.user_id user ≡ own
        → Gives k (some c) (if own then verdict now c c.status else no_confirmation) (
            (if own then by_status c c.status else pure no_confirmation)
              (record { committed = before; working = db; world = [] }))
    diagnose_own true own = by_status_calm c.status refl own
    diagnose_own false own = (refl, there)

    diagnose_calm :
        Gives k
          (some c)
          (answer now user (some c))
          (diagnose user (some c) (record { committed = before; working = db; world = [] }))
    unfolding diagnose
    diagnose_calm = diagnose_own (same_user c.user_id user) refl

  abbrev won_db : Moment → Db → Db
  won_db now db = (win k user now db).1

  taken_verdict :
      (now : Moment) (c : PendingConfirmation)
      → confirmable k user now c ≡ true
      → answer now user (some c) ≡ diagnosis ConfirmOutcome.confirmed (as_confirmed c)
  taken_verdict now c taken = ground arith

  confirm_found :
      (now : Moment) (db : Db) (c : PendingConfirmation)
      → HasKeys confirmation_id db.confirmations
      → row confirmation_id k db.confirmations ≡ some c
      → Gives k (some c) (answer now user (some c)) (confirm none now k user (open_session db []))
  unfolding confirm after_update statement win
  confirm_found now db c keys here = elim (Bool-cases (confirmable k user now c)) [
    | inl taken ↦
        (let one_counted : count_where (confirmable k user now) db.confirmations ≡ 1 =
            ground (arith, here, taken, count-confirmable k user now db.confirmations keys) in
          let set : row confirmation_id k (won_db now db).confirmations ≡ some (as_confirmed c) =
            row-win k k user now db ∙ ground (arith, here, taken) in
          rw (one_counted, after_update)
            (rw (taken_verdict now c taken)
              (won_calm db (won_db now db) (as_confirmed c) set (some c))))
    | inr lost ↦
        (let none_counted : count_where (confirmable k user now) db.confirmations ≡ 0 =
            ground (arith, here, lost, count-confirmable k user now db.confirmations keys) in
          let kept : row confirmation_id k (won_db now db).confirmations ≡ some c =
            row-win k k user now db ∙ ground (arith, here, lost) in
          rw (none_counted, after_update)
            (rw kept (diagnose_calm now db (won_db now db) c kept here lost)))
  ]

  confirm_missing :
      (now : Moment) (db : Db)
      → HasKeys confirmation_id db.confirmations
      → row confirmation_id k db.confirmations ≡ none
      → Gives k none no_confirmation (confirm none now k user (open_session db []))
  unfolding confirm after_update statement win
  confirm_missing now db keys gone =
      let none_counted : count_where (confirmable k user now) db.confirmations ≡ 0 =
        ground (arith, gone, count-confirmable k user now db.confirmations keys) in
      let kept : row confirmation_id k (won_db now db).confirmations ≡ none =
        row-win k k user now db ∙ ground (arith, gone) in
      rw (none_counted, after_update) (rw kept (unfold diagnose in (refl, gone)))

  -- An undisturbed `confirm`, in a session that holds no object of the row and on confirmations
  -- with unique ids, answers by the row that it finds: NOT_FOUND where there is none or it is
  -- another user's, CONFIRMED where it is PENDING with time left, EXPIRED where it is PENDING
  -- without, and by its status otherwise; it commits the row that it answers with, and leaves the
  -- row as it was where it answers NOT_FOUND.
  pub confirm_answers :
      (now : Moment) (db : Db)
      → HasKeys confirmation_id db.confirmations
      → let found = row confirmation_id k db.confirmations in
        Gives k found (answer now user found) (confirm none now k user (open_session db []))
  confirm_answers now db keys = elim (Option-cases (row confirmation_id k db.confirmations)) [
    | inl gone ↦ rw gone (confirm_missing now db keys gone)
    | inr (c, here) ↦ rw here (confirm_found now db c keys here)
  ]
