-- ===== src/PendingConfirmationModule/Once.antt =====
-- Attempts to confirm one command, one after another.
use personal_deadline_manage.Common.{
  ℕ, suc, ◌+◌, ◌≤◌, ◌≡◌, refl, Bool, true, false, inl, inr, Option, none, some, List, [], ◌∷◌,
  arith, ◌≢◌, Bool-cases, Option-cases, ◌==◌, ◌∙◌, if◌then◌else◌,
}
use personal_deadline_manage.Model.{
  Uuid, Moment, PendingConfirmation, PendingConfirmationStatus, same_user,
}
use personal_deadline_manage.Store.{
  Db, Session, Result, ok, err, open_session, bind_result, pure, statement, commit, ◌>>=◌,
}
use personal_deadline_manage.Store.Keeps.{Keeps}
use personal_deadline_manage.Store.WellFormed.{WellFormed}
use personal_deadline_manage.Store.Rows.{row, row-put_ne, row-put_self, id-row, count_where}
use personal_deadline_manage.Store.ConfirmationRepository.{
  confirmation_id, is_open, confirmable, as_expired, as_confirmed, win, save_expired, get_by_id,
}
use personal_deadline_manage.PendingConfirmationModule.{
  ConfirmOutcome, ConfirmResult, confirm, diagnosis, by_status, diagnose, commit_after, won,
  after_update,
}
use personal_deadline_manage.PendingConfirmationModule.Verdict.{row-win, count-confirmable}
use personal_deadline_manage.PendingConfirmationModule.Invariant.{confirm-Keeps, confirm-WellFormed}

-- Whether the caller was told to execute the command.
abbrev pub is_confirmed : ConfirmOutcome → Bool
is_confirmed ConfirmOutcome.confirmed = true
is_confirmed _ = false

abbrev pub executes : Result ConfirmResult → Bool
executes (ok r) = is_confirmed r.outcome
executes (err e) = false

-- An attempt: the object of the row that its session holds, its time, and its user.
abbrev pub Attempt : Type 0
Attempt = Option PendingConfirmation × Moment × Option Uuid

-- How many of the attempts are told to execute the command `k`.
unfoldable pub executions : Uuid → List Attempt → Db → ℕ
unfolding confirm
executions k [] db = 0
executions k ((held, now, user) ∷ attempts) db =
    let (r, s) = confirm held now k user (open_session db []) in
    let later = executions k attempts s.committed in if executes r then suc later else later

-- 1 while the command may still be executed.
abbrev still_open : Option PendingConfirmation → ℕ
still_open none = 0
still_open (some c) = if is_open c.status then 1 else 0

module _ (k : Uuid) (n : ℕ) where
  abbrev AtMost : Db → Type 0
  AtMost db = still_open (row confirmation_id k db.confirmations) ≤ n

  win-AtMost :
      (user : Option Uuid) (now : Moment) (db : Db) → AtMost db → AtMost (win k user now db).1
  win-AtMost user now db h =
      rw (row-win k k user now db) (elim (Option-cases (row confirmation_id k db.confirmations)) [
        | inl gone ↦ rw gone (omega arith)
        | inr (c, here) ↦ ground (arith, here, h)
      ])

  save_expired-AtMost : (j : Uuid) (db : Db) → AtMost db → AtMost (save_expired j db).1
  unfolding save_expired
  save_expired-AtMost j db h = elim (Option-cases (row confirmation_id j db.confirmations)) [
    | inl missing ↦ rw (missing, save_expired) h
    | inr (c, found) ↦
        rw (found, save_expired)
          (elim (Bool-cases (c.id == k)) [
            | inl same ↦
                (let same_id : c.id ≡ k = ground arith in
                  let there : row confirmation_id c.id db.confirmations ≡ some c =
                    ground (arith, found, id-row confirmation_id j db.confirmations c found) in
                  let put_in =
                    row-put_self confirmation_id (as_expired c) db.confirmations c there in
                  ground (arith, put_in, same_id))
            | inr other ↦
                (let apart : c.id ≢ k = ground arith in
                  rw (row-put_ne confirmation_id k (as_expired c) db.confirmations apart) h)
          ])
  ]

  confirm-AtMost :
      (held : Option PendingConfirmation) (now : Moment) (user : Option Uuid)
      → Keeps AtMost (confirm held now k user)
  confirm-AtMost held now user =
      confirm-Keeps AtMost held now k user (win-AtMost user now)
        (λ h at_hand still. save_expired-AtMost h.id)
        (λ before c p here still. save_expired-AtMost c.id)

not_executed :
    (r : Result (Unit {0})) (c : PendingConfirmation) (s : Session)
    → executes (bind_result r (λ done. pure (diagnosis ConfirmOutcome.expired c)) s).0 ≡ false
not_executed (ok done) c s = refl
not_executed (err e) c s = refl

by_status-not_executed :
    (c : PendingConfirmation) (status : PendingConfirmationStatus) (s : Session)
    → executes (by_status c status s).0 ≡ false
unfolding by_status
by_status-not_executed c PendingConfirmationStatus.pending s =
    not_executed (commit_after (statement (save_expired c.id)) s).0 (as_expired c) _
by_status-not_executed c PendingConfirmationStatus.confirmed s = refl
by_status-not_executed c PendingConfirmationStatus.cancelled s = refl
by_status-not_executed c PendingConfirmationStatus.expired s = refl

diagnose-not_executed :
    (user : Option Uuid) (found : Option PendingConfirmation) (s : Session)
    → executes (diagnose user found s).0 ≡ false
unfolding diagnose
diagnose-not_executed user none s = refl
diagnose-not_executed user (some c) s = elim (Bool-cases (same_user c.user_id user)) [
  | inl own ↦ rw own (by_status-not_executed c c.status s)
  | inr other ↦ rw other refl
]

module _ (k : Uuid) (user : Option Uuid) where
  lost-not_executed :
      (held : Option PendingConfirmation) (before db : Db)
      → executes
          ((get_by_id held k >>= diagnose user)
            (record { committed = before; working = db; world = [] })).0
        ≡ false
  unfolding get_by_id statement
  lost-not_executed none before db = diagnose-not_executed user _ _
  lost-not_executed (some h) before db = diagnose-not_executed user (some h) _

  won_commits :
      (held : Option PendingConfirmation) (before db : Db) (c : PendingConfirmation)
      → row confirmation_id k db.confirmations ≡ some c
      → (won held k (record { committed = before; working = db; world = [] })).1.committed ≡ db
  unfolding won get_by_id statement commit_after commit
  won_commits none before db c here = rw here (rw here refl)
  won_commits (some h) before db c here = rw here refl

  module _ (held : Option PendingConfirmation) (now : Moment) (db : Db) where
    abbrev attempt : Result ConfirmResult × Session
    attempt = confirm held now k user (open_session db [])

    abbrev opens : ℕ
    opens = still_open (row confirmation_id k db.confirmations)

    -- An attempt that is told to execute the command closes it.
    abbrev Closes : Type 0
    Closes =
        (if executes attempt.0 then 1 else 0)
          + still_open (row confirmation_id k attempt.1.committed.confirmations)
        ≤ opens

    attempt-taken :
        (c : PendingConfirmation)
        → row confirmation_id k db.confirmations ≡ some c
        → confirmable k user now c ≡ true
        → count_where (confirmable k user now) db.confirmations ≡ 1
        → Closes
    unfolding confirm after_update statement win
    attempt-taken c here taken one =
        let set : row confirmation_id k (win k user now db).1.confirmations
            ≡ some (as_confirmed c) =
          row-win k k user now db ∙ ground (arith, here, taken) in
        let commits = won_commits held db (win k user now db).1 (as_confirmed c) set in
        rw (one, after_update) (rw (commits, set) (ground (arith, here, taken)))

    attempt-lost : count_where (confirmable k user now) db.confirmations ≡ 0 → Closes
    unfolding confirm after_update statement win
    attempt-lost none_counted =
        let bounded =
          ((confirm-AtMost k opens held now user).at (open_session db [])
            (record { committed = omega arith; working = omega arith; world = tt })).committed in
        let not_told : executes attempt.0 ≡ false =
          rw (none_counted, after_update) (lost-not_executed held db (win k user now db).1) in
        ground (arith, bounded, not_told)

    attempt-Closes : WellFormed db → Closes
    attempt-Closes w =
        let counted = count-confirmable k user now db.confirmations w.confirmation_keys in
        elim (Option-cases (row confirmation_id k db.confirmations)) [
          | inl gone ↦ attempt-lost (ground (arith, counted, gone))
          | inr (c, here) ↦ elim (Bool-cases (confirmable k user now c)) [
            | inl taken ↦ attempt-taken c here taken (ground (arith, counted, here, taken))
            | inr lost ↦ attempt-lost (ground (arith, counted, here, lost))
          ]
        ]

executions-le-open :
    (k : Uuid) (attempts : List Attempt) (db : Db)
    → WellFormed db
    → executions k attempts db ≤ still_open (row confirmation_id k db.confirmations)
unfolding executions
executions-le-open k [] db w = omega arith
executions-le-open k ((held, now, user) ∷ attempts) db w =
    let out = confirm held now k user (open_session db []) in
    let kept : WellFormed out.1.committed =
      ((confirm-WellFormed held now k user).at (open_session db [])
        (record { committed = w; working = w; world = tt })).committed in
    let later = executions-le-open k attempts out.1.committed kept in
    let now_open = attempt-Closes k user held now db w in ground arith

-- On tables with keys, of any sequence of undisturbed attempts to confirm one command, at any
-- times, by any users and whatever object of its row their sessions hold, one at most is answered
-- CONFIRMED.
pub executes_once :
    (k : Uuid) (attempts : List Attempt) (db : Db) → WellFormed db → executions k attempts db ≤ 1
executes_once k attempts db w = ground (arith, executions-le-open k attempts db w)
