-- ===== src/ActionExecutor/Fails.antt =====
-- Actions that commit all or nothing: the rules, and the parts of the executor.
use mathlib.Core.Path.{subst}
use personal_deadline_manage.Common.{◌≡◌, Option}
use personal_deadline_manage.Common.Int.{ℤ}
use personal_deadline_manage.Model.{Uuid, Moment}
use personal_deadline_manage.Store.{
  Db, Error, Session, Result, ok, err, Action, pure, transact, bind_result, ◌>>=◌,
}
use personal_deadline_manage.Store.Atomic.{
  IsQuiet, Isolated, isolated_rules, Isolated-pure, Isolated-raise, Settles, transact-Settles,
}
use personal_deadline_manage.TaskService
use personal_deadline_manage.TaskService.{Field}
use personal_deadline_manage.ActionExecutor.Changes.{
  from_result, check_duration, check_field, create_refused, no_row, update_refused,
}

-- If it raises, nothing is committed.
abbrev pub Undone : {A : Type 0} → Db → Result A × Session → Type 0
Undone before (ok a, s) = Unit
Undone before (err e, s) = s.committed ≡ before

pub record AllOrNothing {A : Type 0} (m : Action A) : Type 0 where
  pub at : (s : Session) → IsQuiet s → Undone s.committed (m s)

module _ {A : Type 0} where
  error-Undone :
      (before : Db) (r : Result A) (s : Session) → s.committed ≡ before → Undone before (r, s)
  error-Undone before (ok a) s e = tt
  error-Undone before (err x) s e = e

  pub isolated : (m : Action A) → Isolated m → AllOrNothing m
  isolated m i = record { at = λ s q. error-Undone s.committed (m s).0 (m s).1 (i.committed s q) }

  settled-Undone :
      (before : Db) (done r : Result A × Session) → Settles before done r → Undone before r
  settled-Undone before done (ok a, s) h = tt
  settled-Undone before done (err e, s) h = h.0

  pub settled :
      (work m : Action A)
      → ((s : Session) → IsQuiet s → Settles s.committed (work s) (m s))
      → AllOrNothing m
  settled work m h = record { at = λ s q. settled-Undone s.committed (work s) (m s) (h s q) }

  pub transacted : (work : Action A) → Isolated work → AllOrNothing (transact work)
  transacted work i = settled work (transact work) (λ s q. transact-Settles work s i q)

module _ {A B : Type 0} where
  then_pure :
      (before : Db) (r : Result A) (s : Session) (g : A → B)
      → Undone before (r, s)
      → Undone before (bind_result r (λ a. pure (g a)) s)
  then_pure before (ok a) s g u = tt
  then_pure before (err e) s g u = u

  pub returned : (m : Action A) (g : A → B) → AllOrNothing m → AllOrNothing (m >>= λ a. pure (g a))
  returned m g h = record { at = λ s q. then_pure s.committed (m s).0 (m s).1 g (h.at s q) }

  after :
      (before : Db) (r : Result A) (s : Session) (f : A → Action B)
      → s.committed ≡ before
      → IsQuiet s
      → ((a : A) → AllOrNothing (f a))
      → Undone before (bind_result r f s)
  after before (ok a) s f e q h = subst (λ b. Undone b (f a s)) e ((h a).at s q)
  after before (err x) s f e q h = e

  pub bound :
      (m : Action A) (f : A → Action B)
      → Isolated m
      → ((a : A) → AllOrNothing (f a))
      → AllOrNothing (m >>= f)
  bound m f i h = record {
    at = λ s q. after s.committed (m s).0 (m s).1 f (i.committed s q) (i.quiet s q) h;
  }

pub from_result-Isolated : {A : Type 0} (r : Result A) → Isolated (from_result r)
from_result-Isolated (ok a) = Isolated-pure a
from_result-Isolated (err e) = Isolated-raise e

check_duration-Isolated : (d : Result (Option ℤ)) → Isolated (check_duration d)
check_duration-Isolated (ok d) = search isolated_rules
check_duration-Isolated (err e) = search isolated_rules

check_field-Isolated : (d : Result (Field (Option ℤ))) → Isolated (check_field d)
check_field-Isolated (ok d) = search isolated_rules
check_field-Isolated (err e) = search isolated_rules

pub no_row-AllOrNothing : {A : Type 0} (e : Error) → AllOrNothing (no_row {A = A} e)
unfolding no_row
no_row-AllOrNothing e = transacted _ (search isolated_rules)

pub create_refused-AllOrNothing :
    (now deadline : Moment) (d : Result (Option ℤ)) → AllOrNothing (create_refused now deadline d)
unfolding create_refused
create_refused-AllOrNothing now deadline d =
    transacted _ (search (isolated_rules, check_duration-Isolated) depth 8)

pub update_refused-AllOrNothing :
    (now : Moment) (k : Uuid) (deadline : Option Moment) (d : Result (Field (Option ℤ)))
    → AllOrNothing (update_refused now k deadline d)
unfolding update_refused TaskService.get_task
update_refused-AllOrNothing now k deadline d =
    transacted _ (search (isolated_rules, check_field-Isolated) depth 8)
