-- ===== src/Store/Atomic.antt =====
-- How a transaction ends: with what it wrote, or with an error.
use personal_deadline_manage.Common.{
  ◌≡◌, refl, ◌∙◌, Bool, true, false, Option, none, some, List, [], ◌∷◌, All,
}
use personal_deadline_manage.Store.Transaction.{
  Db, Error, Result, ok, err, Event, calm, fault, meanwhile, Session, Action, pure, raise, or_raise,
  raise_if, statement, select, commit, rollback, transact, written, next_event, commit_event,
  or_rollback, bind_result, ◌>>=◌,
}

-- No other transaction commits while this one is open; faults may still occur.
abbrev pub IsOwn : Event → Type 0
IsOwn calm = Unit
IsOwn fault = Unit
IsOwn (meanwhile g) = ⊥

abbrev pub IsQuiet : Session → Type 0
IsQuiet s = All IsOwn s.world

-- `m` writes to its own transaction only.
pub record Isolated {A : Type 0} (m : Action A) : Type 0 where
  pub committed : (s : Session) → IsQuiet s → (m s).1.committed ≡ s.committed
  pub quiet : (s : Session) → IsQuiet s → IsQuiet (m s).1

module _ {A : Type 0} where
  committed-written : (r : Result A × Db) (s : Session) → (written r s).1.committed ≡ s.committed
  committed-written (ok a, db) s = refl
  committed-written (err e, db) s = refl

  world-written : (r : Result A × Db) (s : Session) → (written r s).1.world ≡ s.world
  world-written (ok a, db) s = refl
  world-written (err e, db) s = refl

  committed-next_event :
      (run : Db → Result A × Db) (w : List Event) (s : Session)
      → All IsOwn w
      → (next_event run w s).1.committed ≡ s.committed
  committed-next_event run [] s q = committed-written (run s.working) s
  committed-next_event run (calm ∷ w) s q =
      committed-written (run s.working) (record s { world = w })
  committed-next_event run (fault ∷ w) s q = refl
  committed-next_event run (meanwhile g ∷ w) s q = absurd q.0

  next_event-IsQuiet :
      (run : Db → Result A × Db) (w : List Event) (s : Session)
      → All IsOwn w
      → IsQuiet s
      → IsQuiet (next_event run w s).1
  next_event-IsQuiet run [] s q h = rw (world-written (run s.working) s) h
  next_event-IsQuiet run (calm ∷ w) s q h =
      rw (world-written (run s.working) (record s { world = w })) q.1
  next_event-IsQuiet run (fault ∷ w) s q h = q.1
  next_event-IsQuiet run (meanwhile g ∷ w) s q h = absurd q.0

  pub Isolated-statement : (run : Db → Result A × Db) → Isolated (statement run)
  unfolding statement
  Isolated-statement run = record {
    committed = λ s q. committed-next_event run s.world s q;
    quiet = λ s q. next_event-IsQuiet run s.world s q q;
  }

  pub Isolated-select : (read : Db → A) → Isolated (select read)
  Isolated-select read = Isolated-statement (λ db. (ok (read db), db))

  pub Isolated-pure : (a : A) → Isolated (pure a)
  Isolated-pure a = record { committed = λ s q. refl; quiet = λ s q. q }

  pub Isolated-raise : (e : Error) → Isolated (raise {A = A} e)
  Isolated-raise e = record { committed = λ s q. refl; quiet = λ s q. q }

  pub Isolated-or_raise : (o : Option A) (e : Error) → Isolated (or_raise o e)
  Isolated-or_raise none e = Isolated-raise e
  Isolated-or_raise (some a) e = Isolated-pure a

pub Isolated-raise_if : (b : Bool) (e : Error) → Isolated (raise_if b e)
Isolated-raise_if true e = Isolated-raise e
Isolated-raise_if false e = Isolated-pure tt

module _ {A B : Type 0} where
  committed-bind_result :
      (r : Result A) (f : A → Action B) (s : Session)
      → ((a : A) → Isolated (f a))
      → IsQuiet s
      → (bind_result r f s).1.committed ≡ s.committed
  committed-bind_result (ok a) f s kf q = (kf a).committed s q
  committed-bind_result (err e) f s kf q = refl

  bind_result-IsQuiet :
      (r : Result A) (f : A → Action B) (s : Session)
      → ((a : A) → Isolated (f a))
      → IsQuiet s
      → IsQuiet (bind_result r f s).1
  bind_result-IsQuiet (ok a) f s kf q = (kf a).quiet s q
  bind_result-IsQuiet (err e) f s kf q = q

  pub Isolated-bind :
      (m : Action A) (f : A → Action B)
      → Isolated m
      → ((a : A) → Isolated (f a))
      → Isolated (m >>= f)
  Isolated-bind m f km kf = record {
    committed = λ s q. committed-bind_result (m s).0 f (m s).1 kf (km.quiet s q) ∙ km.committed s q;
    quiet = λ s q. bind_result-IsQuiet (m s).0 f (m s).1 kf (km.quiet s q);
  }

pub ruleset isolated_rules = (
  Isolated-statement, Isolated-select, Isolated-pure, Isolated-raise, Isolated-or_raise,
  Isolated-raise_if, Isolated-bind,
)

-- How a use case ends that began with the committed tables `before` and whose work ended as `done`:
-- it returns what the work returned, with all that the work wrote committed; or it raises, and the
-- tables are those of before.
abbrev pub Settles : {A : Type 0} → Db → Result A × Session → Result A × Session → Type 0
Settles before done (ok a, s) =
    (done.0 ≡ ok a) × (s.committed ≡ done.1.working) × (s.working ≡ done.1.working)
Settles before done (err e, s) = (s.committed ≡ before) × (s.working ≡ before)

module _ {A : Type 0} where
  pub commit_event-Settles :
      (before : Db) (a : A) (w : List Event) (s : Session)
      → All IsOwn w
      → s.committed ≡ before
      → Settles before (ok a, s) (or_rollback ((commit_event w >>= λ _. pure a) s))
  unfolding rollback
  commit_event-Settles before a [] s q e = (refl, refl, refl)
  commit_event-Settles before a (calm ∷ w) s q e = (refl, refl, refl)
  commit_event-Settles before a (fault ∷ w) s q e = (e, e)
  commit_event-Settles before a (meanwhile g ∷ w) s q e = absurd q.0

  finish-Settles :
      (before : Db) (r : Result A) (s : Session)
      → IsQuiet s
      → s.committed ≡ before
      → Settles before (r, s) (or_rollback (bind_result r (λ a. commit >>= λ _. pure a) s))
  unfolding commit rollback
  finish-Settles before (ok a) s q e = commit_event-Settles before a s.world s q e
  finish-Settles before (err x) s q e = (e, e)

  -- A use case is all or nothing, whatever fails on the way.
  pub transact-Settles :
      (work : Action A) (s : Session)
      → Isolated work
      → IsQuiet s
      → Settles s.committed (work s) (transact work s)
  unfolding transact
  transact-Settles work s i q =
      finish-Settles s.committed (work s).0 (work s).1 (i.quiet s q) (i.committed s q)
