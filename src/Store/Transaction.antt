-- ===== src/Store/Transaction.antt =====
-- uow.py: the session's transaction, and actions over it that may raise.
use personal_deadline_manage.Common.{Bool, true, false, Option, none, some, List, [], ◌∷◌}
use personal_deadline_manage.Model.{Uuid, Task, Reminder, PendingConfirmation}

pub record Db : Type 0 where
  pub tasks : List Task
  pub reminders : List Reminder
  pub confirmations : List PendingConfirmation

-- The exceptions of the application (exceptions/task.py, exceptions/reminder.py, exceptions/llm.py,
-- utils/datetime_utils.py), and those of Python and of the database that pass through it.
pub data Error : Type 0 where
  task_not_found reminder_not_found : Uuid → Error
  invalid_task invalid_reminder naive_datetime value_error type_error key_error : Error
  overflow_error attribute_error generation_error database_error : Error

pub data Result (A : Type 0) : Type 0 where
  ok : A → Result A
  err : Error → Result A

pub data Event : Type 0 where
  calm fault : Event
  meanwhile : (Db → Db) → Event

-- `working` is what this session's statements see: the committed rows with its own writes.
pub record Session : Type 0 where
  pub committed : Db
  pub working : Db
  pub world : List Event

abbrev pub Action : Type 0 → Type 0
Action A = Session → Result A × Session

module _ {A : Type 0} where
  abbrev pub pure : A → Action A
  pure a s = (ok a, s)

  abbrev pub raise : Error → Action A
  raise e s = (err e, s)

  abbrev pub or_raise : Option A → Error → Action A
  or_raise none e = raise e
  or_raise (some a) e = pure a

abbrev pub bind_result : {A B : Type 0} → Result A → (A → Action B) → Action B
bind_result (ok a) f s = f a s
bind_result (err e) f s = (err e, s)

infixl 5 ◌>>=◌ ◌>>◌
abbrev pub ◌>>=◌ : {A B : Type 0} → Action A → (A → Action B) → Action B
◌>>=◌ m f s = let (r, s') = m s in bind_result r f s'

abbrev pub ◌>>◌ : {A B : Type 0} → Action A → Action B → Action B
m >> k = m >>= λ _. k

abbrev pub raise_if : Bool → Error → Action (Unit {0})
raise_if true e = raise e
raise_if false e = pure tt

-- One statement: it may raise, and then it has written nothing.
abbrev pub written : {A : Type 0} → Result A × Db → Session → Result A × Session
written (ok a, db) s = (ok a, record s { working = db })
written (err e, db) s = (err e, s)

abbrev pub next_event : {A : Type 0} → (Db → Result A × Db) → List Event → Action A
next_event run [] s = written (run s.working) s
next_event run (calm ∷ w) s = written (run s.working) (record s { world = w })
next_event run (fault ∷ w) s = (err database_error, record s { world = w })
next_event run (meanwhile g ∷ w) s =
    written (run (g s.working))
      (record { committed = g s.committed; working = g s.working; world = w })

unfoldable pub statement : {A : Type 0} → (Db → Result A × Db) → Action A
statement run s = next_event run s.world s

-- A query.
abbrev pub select : {A : Type 0} → (Db → A) → Action A
select read = statement (λ db. (ok (read db), db))

-- `UnitOfWork.commit`
abbrev pub commit_event : List Event → Action (Unit {0})
commit_event [] s = (ok tt, record s { committed = s.working })
commit_event (calm ∷ w) s = (ok tt, record s { committed = s.working; world = w })
commit_event (fault ∷ w) s = (err database_error, record s { world = w })
commit_event (meanwhile g ∷ w) s =
    (ok tt, record { committed = g s.working; working = g s.working; world = w })

unfoldable pub commit : Action (Unit {0})
commit s = commit_event s.world s

-- `UnitOfWork.rollback`; `UnitOfWork.close` drops the writes that are not committed likewise.
unfoldable pub rollback : Session → Session
rollback s = record s { working = s.committed }

-- `except Exception: uow.rollback(); raise`
abbrev pub or_rollback : {A : Type 0} → Result A × Session → Result A × Session
or_rollback (ok a, s) = (ok a, s)
or_rollback (err e, s) = (err e, rollback s)

abbrev pub then_commit : {A : Type 0} → Action A → Action A
then_commit work = work >>= λ a. commit >>= λ _. pure a

-- The frame of every write use case of the modules:
-- `try: result = work(); uow.commit(); return result except Exception: uow.rollback(); raise`
unfoldable pub transact : {A : Type 0} → Action A → Action A
unfolding commit rollback
transact work s = or_rollback (then_commit work s)

-- A fresh session over what is committed, with its transaction about to begin.
abbrev pub open_session : Db → List Event → Session
open_session db w = record { committed = db; working = db; world = w }
