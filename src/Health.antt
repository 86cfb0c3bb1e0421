-- ===== src/Health.antt =====
-- handlers/health.py: whether the database can be reached.
use personal_deadline_manage.Common.{ℕ}
use personal_deadline_manage.Store.{Result, ok, err, Session, select}

abbrev pub ready_status : {A : Type 0} → Result A → ℕ
ready_status (ok a) = 200
ready_status (err e) = 503

-- `SELECT 1` in a session of its own.
unfoldable pub readiness_check : Session → ℕ
readiness_check s = ready_status (select (λ db. tt) s).0
