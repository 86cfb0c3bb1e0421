-- ===== src/Store/Returns.antt =====
-- Partial correctness of an action: what holds if it returns.
use mathlib.Core.Path.{subst}
use personal_deadline_manage.Common.{◌≡◌, List, [], ◌∷◌}
use personal_deadline_manage.Store.Transaction.{
  Db, Result, ok, err, Event, calm, fault, meanwhile, Session, Action, statement, select,
  next_event, bind_result, ◌>>=◌,
}

abbrev pub Returns : {A : Type 0} → (A → Type 0) → Result A × Session → Type 0
Returns Q (ok a, s) = Q a
Returns Q (err e, s) = Unit

module _ {A B : Type 0} (Q : A → Type 0) (R : B → Type 0) where
  Returns-bind_result :
      (r : Result A) (s : Session) (f : A → Action B)
      → Returns Q (r, s)
      → ((a : A) (s' : Session) → Q a → Returns R (f a s'))
      → Returns R (bind_result r f s)
  Returns-bind_result (ok a) s f q k = k a s q
  Returns-bind_result (err e) s f q k = tt

  pub Returns-bind :
      (m : Action A) (f : A → Action B) (s : Session)
      → Returns Q (m s)
      → ((a : A) (s' : Session) → Q a → Returns R (f a s'))
      → Returns R ((m >>= f) s)
  Returns-bind m f s q k = Returns-bind_result (m s).0 (m s).1 f q k

pub Returns-anything : {A : Type 0} (r : Result A × Session) → Returns (λ a. Unit) r
Returns-anything (ok a, s) = tt
Returns-anything (err e, s) = tt

-- An outcome that is known to be a return.
pub Returns-ok :
    {A : Type 0} (Q : A → Type 0) (r : Result A × Session) (a : A) → r.0 ≡ ok a → Returns Q r → Q a
Returns-ok Q (ok b, s) a e q = let same : b ≡ a = cc in subst Q same q
Returns-ok Q (err x, s) a e q = cc

pub Returns-mono :
    {A : Type 0} (Q R : A → Type 0) (r : Result A × Session)
    → ((a : A) → Q a → R a)
    → Returns Q r
    → Returns R r
Returns-mono Q R (ok a, s) f q = f a q
Returns-mono Q R (err e, s) f q = tt

module _ {A : Type 0} (Q : A → Type 0) (read : Db → A) (holds : (db : Db) → Q (read db)) where
  Returns-next_event :
      (w : List Event) (s : Session) → Returns Q (next_event (λ db. (ok (read db), db)) w s)
  Returns-next_event [] s = holds s.working
  Returns-next_event (calm ∷ w) s = holds s.working
  Returns-next_event (fault ∷ w) s = tt
  Returns-next_event (meanwhile g ∷ w) s = holds (g s.working)

  -- What every table gives, a query returns.
  pub Returns-select : (s : Session) → Returns Q (select read s)
  unfolding statement
  Returns-select s = Returns-next_event s.world s
