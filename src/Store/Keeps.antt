-- ===== src/Store/Keeps.antt =====
-- Invariants of the tables under actions, one rule for each way to build an action.
use personal_deadline_manage.Common.{Bool, true, false, Option, none, some, List, [], ◌∷◌, All}
use personal_deadline_manage.Store.Transaction.{
  Db, Error, Result, ok, err, Event, calm, fault, meanwhile, Session, Action, pure, raise, or_raise,
  raise_if, statement, select, commit, rollback, transact, written, next_event, commit_event,
  or_rollback, then_commit, bind_result, ◌>>=◌,
}

-- The other transactions keep `P` too.
abbrev pub Respects : (Db → Type 0) → Event → Type 0
Respects P calm = Unit
Respects P fault = Unit
Respects P (meanwhile g) = (db : Db) → P db → P (g db)

pub record Holds (P : Db → Type 0) (s : Session) : Type 0 where
  pub committed : P s.committed
  pub working : P s.working
  pub world : All (Respects P) s.world

-- Whether `m` returns or raises, `P` holds of the tables after it if it did before.
pub record Keeps {A : Type 0} (P : Db → Type 0) (m : Action A) : Type 0 where
  pub at : (s : Session) → Holds P s → Holds P (m s).1

module _ {A : Type 0} (P : Db → Type 0) where
  written-Holds : (r : Result A × Db) (s : Session) → P r.1 → Holds P s → Holds P (written r s).1
  written-Holds (ok a, db) s p h = record { committed = h.committed; working = p; world = h.world }
  written-Holds (err e, db) s p h = h

  next_event-Holds :
      (run : Db → Result A × Db)
      → ((db : Db) → P db → P (run db).1)
      → (w : List Event) (s : Session) → All (Respects P) w
      → Holds P s
      → Holds P (next_event run w s).1
  next_event-Holds run keep [] s hw h = written-Holds (run s.working) s (keep s.working h.working) h
  next_event-Holds run keep (calm ∷ w) s hw h =
      written-Holds (run s.working) (record s { world = w }) (keep s.working h.working)
        (record { committed = h.committed; working = h.working; world = hw.1 })
  next_event-Holds run keep (fault ∷ w) s hw h = record {
    committed = h.committed;
    working = h.working;
    world = hw.1;
  }
  next_event-Holds run keep (meanwhile g ∷ w) s hw h =
      let seen = hw.0 s.working h.working in
      written-Holds (run (g s.working))
        (record { committed = g s.committed; working = g s.working; world = w })
        (keep (g s.working) seen)
        (record { committed = hw.0 s.committed h.committed; working = seen; world = hw.1 })

  pub Keeps-statement :
      (run : Db → Result A × Db) → ((db : Db) → P db → P (run db).1) → Keeps P (statement run)
  unfolding statement
  Keeps-statement run keep = record { at = λ s h. next_event-Holds run keep s.world s h.world h }

  pub Keeps-select : (read : Db → A) → Keeps P (select read)
  Keeps-select read = Keeps-statement (λ db. (ok (read db), db)) (λ db p. p)

  pub Keeps-pure : (a : A) → Keeps P (pure a)
  Keeps-pure a = record { at = λ s h. h }

  pub Keeps-raise : (e : Error) → Keeps P (raise {A = A} e)
  Keeps-raise e = record { at = λ s h. h }

  pub Keeps-or_raise : (o : Option A) (e : Error) → Keeps P (or_raise o e)
  Keeps-or_raise none e = Keeps-raise e
  Keeps-or_raise (some a) e = Keeps-pure a

pub Keeps-raise_if : (P : Db → Type 0) (b : Bool) (e : Error) → Keeps P (raise_if b e)
Keeps-raise_if P true e = Keeps-raise P e
Keeps-raise_if P false e = Keeps-pure P tt

module _ {A B : Type 0} (P : Db → Type 0) where
  then-Holds :
      (r : Result A) (f : A → Action B) (s : Session)
      → ((a : A) → Keeps P (f a))
      → Holds P s
      → Holds P (bind_result r f s).1
  then-Holds (ok a) f s kf h = (kf a).at s h
  then-Holds (err e) f s kf h = h

  pub Keeps-bind :
      (m : Action A) (f : A → Action B) → Keeps P m → ((a : A) → Keeps P (f a)) → Keeps P (m >>= f)
  Keeps-bind m f km kf = record { at = λ s h. then-Holds (m s).0 f (m s).1 kf (km.at s h) }

module _ {A B : Type 0} (P : Db → Type 0) where
  select-next_event-Holds :
      (read : Db → A) (f : A → Action B)
      → ((db : Db) → P db → Keeps P (f (read db)))
      → (w : List Event) (s : Session) → All (Respects P) w
      → Holds P s
      → Holds P ((next_event (λ db. (ok (read db), db)) w >>= f) s).1
  select-next_event-Holds read f kf [] s hw h = (kf s.working h.working).at s h
  select-next_event-Holds read f kf (calm ∷ w) s hw h =
      (kf s.working h.working).at (record s { world = w })
        (record { committed = h.committed; working = h.working; world = hw.1 })
  select-next_event-Holds read f kf (fault ∷ w) s hw h = record {
    committed = h.committed;
    working = h.working;
    world = hw.1;
  }
  select-next_event-Holds read f kf (meanwhile g ∷ w) s hw h =
      let seen = hw.0 s.working h.working in
      (kf (g s.working) seen).at
        (record { committed = g s.committed; working = g s.working; world = w })
        (record { committed = hw.0 s.committed h.committed; working = seen; world = hw.1 })

  -- What follows a query may use that its answer comes from tables with `P`.
  pub Keeps-bind_select :
      (read : Db → A) (f : A → Action B)
      → ((db : Db) → P db → Keeps P (f (read db)))
      → Keeps P (select read >>= f)
  unfolding statement
  Keeps-bind_select read f kf = record {
    at = λ s h. select-next_event-Holds read f kf s.world s h.world h;
  }

commit_event-Holds :
    (P : Db → Type 0) (w : List Event) (s : Session)
    → All (Respects P) w
    → Holds P s
    → Holds P (commit_event w s).1
commit_event-Holds P [] s hw h = record {
  committed = h.working;
  working = h.working;
  world = h.world;
}
commit_event-Holds P (calm ∷ w) s hw h = record {
  committed = h.working;
  working = h.working;
  world = hw.1;
}
commit_event-Holds P (fault ∷ w) s hw h = record {
  committed = h.committed;
  working = h.working;
  world = hw.1;
}
commit_event-Holds P (meanwhile g ∷ w) s hw h =
    let seen = hw.0 s.working h.working in record { committed = seen; working = seen; world = hw.1 }

pub Keeps-commit : (P : Db → Type 0) → Keeps P commit
unfolding commit
Keeps-commit P = record { at = λ s h. commit_event-Holds P s.world s h.world h }

module _ {A : Type 0} (P : Db → Type 0) where
  pub or_rollback-Holds : (r : Result A × Session) → Holds P r.1 → Holds P (or_rollback r).1
  unfolding rollback
  or_rollback-Holds (ok a, s) h = h
  or_rollback-Holds (err e, s) h = record {
    committed = h.committed;
    working = h.committed;
    world = h.world;
  }

  pub Keeps-transact : (work : Action A) → Keeps P work → Keeps P (transact work)
  unfolding transact
  Keeps-transact work k =
      let committed =
        Keeps-bind P work (λ a. commit >>= λ _. pure a) k
          (λ a. Keeps-bind P commit (λ _. pure a) (Keeps-commit P) (λ _. Keeps-pure P a)) in
      record { at = λ s h. or_rollback-Holds (then_commit work s) (committed.at s h) }

pub ruleset keeps_rules = (
  Keeps-statement, Keeps-select, Keeps-pure, Keeps-raise, Keeps-or_raise, Keeps-raise_if,
  Keeps-bind, Keeps-commit, Keeps-transact,
)
