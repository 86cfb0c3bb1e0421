-- ===== src/PendingConfirmationModule/Cleanup.antt =====
-- What `cleanup_expired` does when nothing disturbs it.
use personal_deadline_manage.Common.{ℕ, ◌≡◌, Option, none, some, if◌then◌else◌}
use personal_deadline_manage.Model.{Uuid, Moment, PendingConfirmation}
use personal_deadline_manage.Store.{Db, Result, ok, Session}
use personal_deadline_manage.Store.Rows.{row, count_where}
use personal_deadline_manage.Store.ConfirmationRepository.{confirmation_id, lapsed, as_expired}

-- A confirmation after the cleanup at `now`.
abbrev pub swept : Moment → Option PendingConfirmation → Option PendingConfirmation
swept now none = none
swept now (some c) = some (if lapsed now c then as_expired c else c)

abbrev pub Sweeps : Moment → Db → Result ℕ × Session → Type 0
Sweeps now db (r, s) =
    (r ≡ ok (count_where (lapsed now) db.confirmations))
    × ((k : Uuid)
        → row confirmation_id k s.committed.confirmations
          ≡ swept now (row confirmation_id k db.confirmations))
