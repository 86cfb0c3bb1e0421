-- ===== src/Store/ConfirmationRepository.antt =====
-- repositories/pending_confirmation_repository.py.
use personal_deadline_manage.Common.{
  ℕ, Bool, true, false, ◌&&◌, Option, none, some, List, [], ◌∷◌, ◌++◌, ◌==◌, ltb, filter,
}
use personal_deadline_manage.Common.Order.{nat_order, pair_order}
use personal_deadline_manage.Common.Sort.{sort_by}
use personal_deadline_manage.Model.{
  Uuid, Moment, PendingConfirmation, PendingConfirmationStatus, same_user,
}
use personal_deadline_manage.Store.Transaction.{
  Db, Result, ok, err, database_error, Action, statement, select, pure, or_raise, ◌>>=◌,
}
use personal_deadline_manage.Store.Rows.{row, put, update_where, count_where}

abbrev pub confirmation_id : PendingConfirmation → Uuid
confirmation_id c = c.id

unfoldable pub insert_confirmation : PendingConfirmation → Db → Result PendingConfirmation × Db
insert_confirmation c db = elim (row confirmation_id c.id db.confirmations) [
  | none ↦ (ok c, record db { confirmations = db.confirmations ++ c ∷ [] })
  | some _ ↦ (err database_error, db)
]

unfoldable pub create : PendingConfirmation → Action PendingConfirmation
unfolding insert_confirmation
create c = statement (insert_confirmation c)

-- `Session.get` gives the object of the row `k` that the session holds, with what it says, if it
-- holds one; otherwise it reads the row.
unfoldable pub get_by_id : Option PendingConfirmation → Uuid → Action (Option PendingConfirmation)
get_by_id none k = select (λ db. row confirmation_id k db.confirmations)
get_by_id (some held) k = pure (some held)

-- The row is read again; a row that is gone is an error.
unfoldable pub refresh : Uuid → Action PendingConfirmation
unfolding get_by_id
refresh k = do found ← get_by_id none k; or_raise found database_error

abbrev pub is_open : PendingConfirmationStatus → Bool
is_open PendingConfirmationStatus.pending = true
is_open _ = false

abbrev pub pending_of : Option Uuid → PendingConfirmation → Bool
pending_of user c = same_user c.user_id user && is_open c.status

abbrev pub age_key : PendingConfirmation → Moment × Uuid
age_key c = (c.created_at, c.id)

abbrev pub last : List PendingConfirmation → Option PendingConfirmation
last [] = none
last (c ∷ []) = some c
last (c ∷ d ∷ cs) = last (d ∷ cs)

-- ORDER BY created_at DESC, id DESC LIMIT 1: the last one in ascending order.
unfoldable pub latest_row : Option Uuid → List PendingConfirmation → Option PendingConfirmation
latest_row user cs = last (sort_by age_key (filter (pending_of user) cs))

unfoldable pub find_latest_pending_by_user : Option Uuid → Action (Option PendingConfirmation)
unfolding latest_row
find_latest_pending_by_user user = select (λ db. latest_row user db.confirmations)

abbrev pub lapsed : Moment → PendingConfirmation → Bool
lapsed now c = is_open c.status && ltb c.expires_at now

abbrev pub as_expired : PendingConfirmation → PendingConfirmation
as_expired c = record c { status = PendingConfirmationStatus.expired }

unfoldable pub expire : Moment → Db → Result ℕ × Db
expire now db = (
  ok (count_where (lapsed now) db.confirmations),
  record db { confirmations = update_where (lapsed now) as_expired db.confirmations },
)

unfoldable pub mark_expired : Moment → Action ℕ
unfolding expire
mark_expired now = statement (expire now)

-- id, user, status PENDING and `expires_at > now`
abbrev pub confirmable : Uuid → Option Uuid → Moment → PendingConfirmation → Bool
confirmable k user now c =
    c.id == k && same_user c.user_id user && is_open c.status && ltb now c.expires_at

abbrev pub as_confirmed : PendingConfirmation → PendingConfirmation
as_confirmed c = record c { status = PendingConfirmationStatus.confirmed }

unfoldable pub win : Uuid → Option Uuid → Moment → Db → Result ℕ × Db
win k user now db = (
  ok (count_where (confirmable k user now) db.confirmations),
  record db { confirmations = update_where (confirmable k user now) as_confirmed db.confirmations },
)

unfoldable pub mark_confirmed : Uuid → Option Uuid → Moment → Action ℕ
unfolding win
mark_confirmed k user now = statement (win k user now)

-- The UPDATE that a flush sends for an entity whose status was set to EXPIRED.
unfoldable pub save_expired : Uuid → Db → Result (Unit {0}) × Db
save_expired k db = elim (row confirmation_id k db.confirmations) [
  | none ↦ (err database_error, db)
  | some c ↦
      (ok tt, record db { confirmations = put confirmation_id (as_expired c) db.confirmations })
]
