-- ===== src/PendingConfirmationModule/Invariant.antt =====
-- Confirmations under every operation of the module, whatever fails or happens meanwhile.
use personal_deadline_manage.Common.{
  ◌≡◌, refl, ◌≢◌, ◌∙◌, sym, Bool, true, false, inl, inr, Option, none, some, arith, Option-cases,
  ◌==◌, if◌then◌else◌,
}
use personal_deadline_manage.Common.Int.{ℤ}
use personal_deadline_manage.Model.{
  Uuid, Text, Moment, PendingConfirmation, PendingConfirmationStatus, same_user,
}
use personal_deadline_manage.Store.{Db, Action, commit, pure, statement, ◌>>◌, ◌>>=◌}
use personal_deadline_manage.Store.Keeps.{
  Keeps, keeps_rules, Keeps-bind, Keeps-statement, Keeps-bind_select, Keeps-commit, Keeps-pure,
  or_rollback-Holds,
}
use personal_deadline_manage.Store.WellFormed.{
  WellFormed, insert_confirmation-WellFormed, expire-WellFormed, win-WellFormed,
  save_expired-WellFormed,
}
use personal_deadline_manage.Store.Rows.{row, row-append, row-update_where, row-put_ne, id-row}
use personal_deadline_manage.Store.ConfirmationRepository.{
  confirmation_id, is_open, insert_confirmation, lapsed, as_expired, expire, confirmable,
  as_confirmed, win, save_expired, get_by_id,
}
use personal_deadline_manage.PendingConfirmationModule.{
  create, commit_after, won, by_status, diagnose, confirm, after_update, no_confirmation,
  commit_count, cleanup_expired,
}

pub if-Keeps :
    (P : Db → Type 0) {A : Type 0} (b : Bool) (m n : Action A)
    → Keeps P m
    → Keeps P n
    → Keeps P (if b then m else n)
if-Keeps P true m n km kn = km
if-Keeps P false m n km kn = kn

module _ (P : Db → Type 0) where
  commit_after-Keeps : (work : Action (Unit {0})) → Keeps P work → Keeps P (commit_after work)
  unfolding commit_after
  commit_after-Keeps work k =
      let committed = Keeps-bind P work (λ _. commit) k (λ _. Keeps-commit P) in
      record { at = λ s h. or_rollback-Holds P ((work >> commit) s) (committed.at s h) }

  won-Keeps : (held : Option PendingConfirmation) (k : Uuid) → Keeps P (won held k)
  unfolding won
  won-Keeps none k = search (keeps_rules, commit_after-Keeps) depth 14
  won-Keeps (some h) k = search (keeps_rules, commit_after-Keeps) depth 14

  -- Only a row that is still PENDING is written.
  by_status-Keeps :
      (c : PendingConfirmation) (status : PendingConfirmationStatus)
      → (is_open status ≡ true → (db : Db) → P db → P (save_expired c.id db).1)
      → Keeps P (by_status c status)
  unfolding by_status
  by_status-Keeps c PendingConfirmationStatus.pending saves =
      let saved = saves refl in search (keeps_rules, commit_after-Keeps, saved) depth 8
  by_status-Keeps c PendingConfirmationStatus.confirmed saves = search keeps_rules
  by_status-Keeps c PendingConfirmationStatus.cancelled saves = search keeps_rules
  by_status-Keeps c PendingConfirmationStatus.expired saves = search keeps_rules

  -- An object that still says PENDING may be written: the row that is read, or the one held.
  abbrev pub Saves : PendingConfirmation → Type 0
  Saves c = is_open c.status ≡ true → (db : Db) → P db → P (save_expired c.id db).1

  diagnose-Keeps :
      (user : Option Uuid) (found : Option PendingConfirmation)
      → ((c : PendingConfirmation) → found ≡ some c → Saves c)
      → Keeps P (diagnose user found)
  unfolding diagnose
  diagnose-Keeps user none saves = search keeps_rules
  diagnose-Keeps user (some c) saves =
      if-Keeps P (same_user c.user_id user) (by_status c c.status) (pure no_confirmation)
        (by_status-Keeps c c.status (saves c refl)) (Keeps-pure P no_confirmation)

  got-Keeps :
      (held : Option PendingConfirmation) (k : Uuid) (user : Option Uuid)
      → ((h : PendingConfirmation) → held ≡ some h → Saves h)
      → ((before : Db) (c : PendingConfirmation)
          → P before
          → row confirmation_id k before.confirmations ≡ some c
          → Saves c)
      → Keeps P (get_by_id held k >>= diagnose user)
  unfolding get_by_id
  got-Keeps (some h) k user stale saves = record {
    at = λ s p. (diagnose-Keeps user (some h) stale).at s p;
  }
  got-Keeps none k user stale saves =
      Keeps-bind_select P (λ db. row confirmation_id k db.confirmations) (diagnose user)
        (λ before p.
          diagnose-Keeps user (row confirmation_id k before.confirmations)
            (λ c here still. saves before c p here still))

  pub confirm-Keeps :
      (held : Option PendingConfirmation) (now : Moment) (k : Uuid) (user : Option Uuid)
      → ((db : Db) → P db → P (win k user now db).1)
      → ((h : PendingConfirmation) → held ≡ some h → Saves h)
      → ((before : Db) (c : PendingConfirmation)
          → P before
          → row confirmation_id k before.confirmations ≡ some c
          → Saves c)
      → Keeps P (confirm held now k user)
  unfolding confirm after_update
  confirm-Keeps held now k user wins stale saves =
      Keeps-bind P (statement (win k user now)) (after_update held k user)
        (Keeps-statement P (win k user now) wins)
        (λ updated.
          if-Keeps P (updated == 1) (won held k) _ (won-Keeps held k)
            (got-Keeps held k user stale saves))

  pub cleanup_expired-Keeps :
      (now : Moment) → ((db : Db) → P db → P (expire now db).1) → Keeps P (cleanup_expired now)
  unfolding cleanup_expired commit_count
  cleanup_expired-Keeps now expires =
      search (keeps_rules, if-Keeps, commit_after-Keeps, expires) depth 8

  pub create-Keeps :
      (fresh : Uuid) (now : Moment) (user : Option Uuid) (command : Text) (ttl : ℤ)
      → ((c : PendingConfirmation) (db : Db) → P db → P (insert_confirmation c db).1)
      → Keeps P (create fresh now user command ttl)
  unfolding create
  create-Keeps fresh now user command ttl inserts = search (keeps_rules, inserts) depth 8

-- The keys of the tables.
pub confirm-WellFormed :
    (held : Option PendingConfirmation) (now : Moment) (k : Uuid) (user : Option Uuid)
    → Keeps WellFormed (confirm held now k user)
confirm-WellFormed held now k user =
    confirm-Keeps WellFormed held now k user (λ db w. win-WellFormed db w k user now)
      (λ h at_hand is_op db w. save_expired-WellFormed db w h.id)
      (λ before c p here is_op db w. save_expired-WellFormed db w c.id)

pub cleanup_expired-WellFormed : (now : Moment) → Keeps WellFormed (cleanup_expired now)
cleanup_expired-WellFormed now =
    cleanup_expired-Keeps WellFormed now (λ db w. expire-WellFormed db w now)

pub create-WellFormed :
    (fresh : Uuid) (now : Moment) (user : Option Uuid) (command : Text) (ttl : ℤ)
    → Keeps WellFormed (create fresh now user command ttl)
create-WellFormed fresh now user command ttl =
    create-Keeps WellFormed fresh now user command ttl
      (λ c db w. insert_confirmation-WellFormed db w c)

-- The row `c` is in the table, and is not PENDING any more.
module _ (c : PendingConfirmation) (closed : is_open c.status ≡ false) where
  abbrev pub Stays : Db → Type 0
  Stays db = row confirmation_id c.id db.confirmations ≡ some c

  insert_confirmation-Stays :
      (d : PendingConfirmation) (db : Db) → Stays db → Stays (insert_confirmation d db).1
  unfolding insert_confirmation
  insert_confirmation-Stays d db h =
      ground (arith, row-append confirmation_id c.id db.confirmations d)

  expire-Stays : (now : Moment) (db : Db) → Stays db → Stays (expire now db).1
  unfolding expire
  expire-Stays now db h =
      row-update_where confirmation_id (lapsed now) as_expired (λ d. refl) c.id db.confirmations
      ∙ ground (arith, h, closed)

  win-Stays :
      (k : Uuid) (user : Option Uuid) (now : Moment) (db : Db)
      → Stays db
      → Stays (win k user now db).1
  unfolding win
  win-Stays k user now db h =
      row-update_where confirmation_id (confirmable k user now) as_confirmed (λ d. refl) c.id
        db.confirmations
      ∙ ground (arith, h, closed)

  save_expired-Stays :
      (d : PendingConfirmation)
      → d.id ≢ c.id
      → (db : Db) → Stays db
      → Stays (save_expired d.id db).1
  unfolding save_expired
  save_expired-Stays d other db h =
      elim (Option-cases (row confirmation_id d.id db.confirmations)) [
        | inl missing ↦ rw (missing, save_expired) h
        | inr (r, found) ↦
            rw (found, save_expired)
              (row-put_ne confirmation_id c.id (as_expired r) db.confirmations (λ same.
                  other (sym (id-row confirmation_id d.id db.confirmations r found) ∙ same))
                ∙ h)
      ]

  -- The table has another row where it has one that is open.
  open_elsewhere :
      (before : Db) (k : Uuid) (d : PendingConfirmation)
      → Stays before
      → row confirmation_id k before.confirmations ≡ some d
      → is_open d.status ≡ true
      → d.id ≢ c.id
  open_elsewhere before k d p here still same =
      let there : k ≡ c.id = sym (id-row confirmation_id k before.confirmations d here) ∙ same in
      ground (arith, p, here, there, still, closed)

  -- A confirmation row that is not PENDING stays as it is, in the committed tables and those that
  -- the session sees, when any user confirms any command, with any errors, and while other
  -- transactions keep the row; if the session holds an object of that row, it does not say
  -- PENDING.
  pub confirm-Stays :
      (held : Option PendingConfirmation) (now : Moment) (k : Uuid) (user : Option Uuid)
      → ((h : PendingConfirmation) → held ≡ some h → h.id ≡ c.id → is_open h.status ≡ false)
      → Keeps Stays (confirm held now k user)
  confirm-Stays held now k user current =
      confirm-Keeps Stays held now k user (win-Stays k user now)
        (λ h at_hand still.
          save_expired-Stays h (λ same. ground (arith, current h at_hand same, still)))
        (λ before d p here still. save_expired-Stays d (open_elsewhere before k d p here still))

  pub cleanup_expired-Stays : (now : Moment) → Keeps Stays (cleanup_expired now)
  cleanup_expired-Stays now = cleanup_expired-Keeps Stays now (expire-Stays now)

  pub create-Stays :
      (fresh : Uuid) (now : Moment) (user : Option Uuid) (command : Text) (ttl : ℤ)
      → Keeps Stays (create fresh now user command ttl)
  create-Stays fresh now user command ttl =
      create-Keeps Stays fresh now user command ttl insert_confirmation-Stays
