-- ===== src/PendingConfirmationModule.antt =====
-- modules/pending_confirmation_module.py. `fresh` is the UUID of a new row and `now` the time that
-- the call reads.
pub mod Invariant
pub mod Verdict
pub mod Cleanup
pub mod Once
pub mod Stale
pub mod Latest
use personal_deadline_manage.Common.{ℕ, Bool, Option, none, some, ◌==◌, if◌then◌else◌}
use personal_deadline_manage.Common.Int.{ℤ}
use personal_deadline_manage.Model.{
  Uuid, Text, Moment, PendingConfirmation, PendingConfirmationStatus, same_user,
}
use personal_deadline_manage.Model.Time.{plus_seconds}
use personal_deadline_manage.Store.{
  Action, overflow_error, database_error, pure, or_raise, statement, commit, rollback, or_rollback,
  transact, ◌>>=◌, ◌>>◌,
}
use personal_deadline_manage.Store.ConfirmationRepository
use personal_deadline_manage.Store.ConfirmationRepository.{save_expired, as_expired}

pub data ConfirmOutcome : Type 0 where
  confirmed already_confirmed expired cancelled not_found : ConfirmOutcome

pub record ConfirmResult : Type 0 where
  pub outcome : ConfirmOutcome
  pub confirmation : Option PendingConfirmation

unfoldable pub create : Uuid → Moment → Option Uuid → Text → ℤ → Action PendingConfirmation
unfolding plus_seconds ConfirmationRepository.create
create fresh now user_id command ttl_seconds = do
  expires_at ← or_raise (plus_seconds now ttl_seconds) overflow_error
  transact (
      ConfirmationRepository.create (record {
        id = fresh;
        user_id = user_id;
        execution_command = command;
        created_at = now;
        expires_at = expires_at;
        status = PendingConfirmationStatus.pending;
      }))

unfoldable pub get_latest_pending : Option Uuid → Action (Option PendingConfirmation)
unfolding ConfirmationRepository.find_latest_pending_by_user
get_latest_pending user_id = ConfirmationRepository.find_latest_pending_by_user user_id

-- `try: work(); uow.commit() except Exception: uow.rollback(); raise`
unfoldable pub commit_after : Action (Unit {0}) → Action (Unit {0})
unfolding commit rollback
commit_after work s = or_rollback ((work >> commit) s)

-- The transition was won: the row is loaded again and the transaction committed.
unfoldable pub won : Option PendingConfirmation → Uuid → Action ConfirmResult
unfolding ConfirmationRepository.get_by_id ConfirmationRepository.refresh commit_after
won held k = do
  found ← ConfirmationRepository.get_by_id held k
  or_raise found database_error
  confirmation ← ConfirmationRepository.refresh k
  commit_after (pure tt)
  pure (record { outcome = ConfirmOutcome.confirmed; confirmation = some confirmation })

abbrev pub no_confirmation : ConfirmResult
no_confirmation = record { outcome = ConfirmOutcome.not_found; confirmation = none }

abbrev pub diagnosis : ConfirmOutcome → PendingConfirmation → ConfirmResult
diagnosis outcome c = record { outcome = outcome; confirmation = some c }

-- Why the row `c` of this user was not taken; a row that is still PENDING has expired.
unfoldable pub by_status : PendingConfirmation → PendingConfirmationStatus → Action ConfirmResult
unfolding commit_after save_expired
by_status c PendingConfirmationStatus.confirmed =
    pure (diagnosis ConfirmOutcome.already_confirmed c)
by_status c PendingConfirmationStatus.cancelled = pure (diagnosis ConfirmOutcome.cancelled c)
by_status c PendingConfirmationStatus.expired = pure (diagnosis ConfirmOutcome.expired c)
by_status c PendingConfirmationStatus.pending = do
  commit_after (statement (save_expired c.id))
  pure (diagnosis ConfirmOutcome.expired (as_expired c))

unfoldable pub diagnose : Option Uuid → Option PendingConfirmation → Action ConfirmResult
unfolding by_status
diagnose user_id none = pure no_confirmation
diagnose user_id (some c) =
    if same_user c.user_id user_id then by_status c c.status else pure no_confirmation

unfoldable pub after_update :
    Option PendingConfirmation → Uuid → Option Uuid → ℕ → Action ConfirmResult
unfolding ConfirmationRepository.get_by_id won diagnose
after_update held k user_id updated =
    if updated == 1
    then won held k
    else ConfirmationRepository.get_by_id held k >>= diagnose user_id

-- `held` is the object of the row `k` that the session holds when the UPDATE has run, if it has
-- loaded one; it may be older than the row.
unfoldable pub confirm :
    Option PendingConfirmation → Moment → Uuid → Option Uuid → Action ConfirmResult
unfolding ConfirmationRepository.mark_confirmed after_update
confirm held now k user_id = do
  updated ← ConfirmationRepository.mark_confirmed k user_id now
  after_update held k user_id updated

unfoldable pub commit_count : ℕ → Action ℕ
unfolding commit_after
commit_count count = if count == 0 then pure count else (do commit_after (pure tt); pure count)

unfoldable pub cleanup_expired : Moment → Action ℕ
unfolding ConfirmationRepository.mark_expired commit_count
cleanup_expired now = do count ← ConfirmationRepository.mark_expired now; commit_count count
