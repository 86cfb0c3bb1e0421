-- ===== src/Tests/Confirming.antt =====
-- Confirmations of concrete commands.
use personal_deadline_manage.Common.{◌≤◌, ◌≡◌, arith, refl, none, some, [], ◌∷◌}
use personal_deadline_manage.Store.{open_session, ok}
use personal_deadline_manage.Store.Keeps.{Keeps}
use personal_deadline_manage.Store.ConfirmationRepository.{
  as_confirmed, as_expired, confirmation_id,
}
use personal_deadline_manage.Store.Rows.{row}
use personal_deadline_manage.Model.{PendingConfirmation}
use personal_deadline_manage.PendingConfirmationModule.Stale.{confirm_stale}
use personal_deadline_manage.PendingConfirmationModule.{confirm, diagnosis, ConfirmOutcome}
use personal_deadline_manage.PendingConfirmationModule.Verdict.{Gives, confirm_answers}
use personal_deadline_manage.PendingConfirmationModule.Once.{executions, executes_once}
use personal_deadline_manage.PendingConfirmationModule.Invariant.{Stays, confirm-Stays}
use personal_deadline_manage.PendingConfirmationModule.{get_latest_pending}
use personal_deadline_manage.PendingConfirmationModule.Latest.{Finds, get_latest_pending-Latest}
use personal_deadline_manage.Tests.Data.{tables, tables-WellFormed, command, done_command}

confirm_answers_example :
    Gives 21
      (some command)
      (diagnosis ConfirmOutcome.confirmed (as_confirmed command))
      (confirm none 700 21 none (open_session tables []))
confirm_answers_example = confirm_answers 21 none 700 tables tables-WellFormed.confirmation_keys

executes_once_example :
    executions 21 ((none, 700, none) ∷ (some command, 750, none) ∷ (none, 700, some 3) ∷ []) tables
    ≤ 1
executes_once_example =
    executes_once 21 ((none, 700, none) ∷ (some command, 750, none) ∷ (none, 700, some 3) ∷ [])
      tables tables-WellFormed

confirm-Stays_example : Keeps (Stays done_command refl) (confirm (some done_command) 700 22 none)
confirm-Stays_example =
    confirm-Stays done_command refl (some done_command) 700 22 none
      (λ h is same. ground (arith, is))

-- The row 22 as it was before it was confirmed.
abbrev stale : PendingConfirmation
stale = record command { id = 22 }

confirm_stale_example :
    let (r, s) = confirm (some stale) 900 22 none (open_session tables []) in
    (r ≡ ok (diagnosis ConfirmOutcome.expired (as_expired stale)))
    × (row confirmation_id 22 s.committed.confirmations ≡ some (as_expired done_command))
confirm_stale_example =
    confirm_stale 22 none 900 tables stale done_command tables-WellFormed.confirmation_keys refl
      refl refl refl refl

get_latest_pending-Latest_example :
    Finds none tables tables-WellFormed.confirmation_keys
      (get_latest_pending none (open_session tables [])).0
get_latest_pending-Latest_example =
    get_latest_pending-Latest none tables tables-WellFormed.confirmation_keys
