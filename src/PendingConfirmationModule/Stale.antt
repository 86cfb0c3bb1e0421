-- ===== src/PendingConfirmationModule/Stale.antt =====
-- `confirm` in a session that holds an object older than the row.
use personal_deadline_manage.Common.{◌≡◌, refl, ◌∙◌, true, false, Option, some, [], arith}
use personal_deadline_manage.Model.{
  Uuid, Moment, PendingConfirmation, PendingConfirmationStatus, same_user,
}
use personal_deadline_manage.Store.{Db, ok, open_session, statement}
use personal_deadline_manage.Store.Rows.{row, HasKeys, id-row, count_where, row-put_self}
use personal_deadline_manage.Store.ConfirmationRepository.{
  confirmation_id, is_open, as_expired, confirmable, win, save_expired, get_by_id,
}
use personal_deadline_manage.PendingConfirmationModule.{
  ConfirmOutcome, diagnosis, by_status, diagnose, after_update, confirm,
}
use personal_deadline_manage.PendingConfirmationModule.Verdict.{
  row-win, count-confirmable, expired_in, commit_after_calm,
}

module _ (k : Uuid) (user : Option Uuid) (now : Moment) where
  save_held :
      (db : Db) (held c : PendingConfirmation)
      → row confirmation_id held.id db.confirmations ≡ some c
      → save_expired held.id db ≡ (ok tt, expired_in k user db c)
  unfolding save_expired
  save_held db held c here = rw (here, save_expired) refl

  by_status_pending :
      (before db : Db) (held c : PendingConfirmation) (status : PendingConfirmationStatus)
      → row confirmation_id held.id db.confirmations ≡ some c
      → status ≡ PendingConfirmationStatus.pending
      → by_status held status (record { committed = before; working = db; world = [] }) ≡ (
        ok (diagnosis ConfirmOutcome.expired (as_expired held)),
        open_session (expired_in k user db c) [],
      )
  unfolding by_status
  by_status_pending before db held c status here is = rw is (
      rw
        (commit_after_calm k user (save_expired held.id) before db (expired_in k user db c)
          (save_held db held c here))
        refl)

  -- On confirmations with unique ids, where the row is not PENDING any more and the session holds
  -- an object of the row that still says PENDING and is the user's, an undisturbed `confirm`
  -- answers EXPIRED and commits the row as EXPIRED, whatever its status was.
  pub confirm_stale :
      (db : Db) (held c : PendingConfirmation)
      → HasKeys confirmation_id db.confirmations
      → row confirmation_id k db.confirmations ≡ some c
      → is_open c.status ≡ false
      → held.id ≡ k
      → held.status ≡ PendingConfirmationStatus.pending
      → same_user held.user_id user ≡ true
      → let (r, s) = confirm (some held) now k user (open_session db []) in
        (r ≡ ok (diagnosis ConfirmOutcome.expired (as_expired held)))
        × (row confirmation_id k s.committed.confirmations ≡ some (as_expired c))
  unfolding confirm after_update get_by_id diagnose statement win
  confirm_stale db held c keys here closed is_k pending own =
      let none_counted : count_where (confirmable k user now) db.confirmations ≡ 0 =
        ground (arith, here, closed, count-confirmable k user now db.confirmations keys) in
      let after = (win k user now db).1 in
      let kept : row confirmation_id k after.confirmations ≡ some c =
        row-win k k user now db ∙ ground (arith, here, closed) in
      let c_id = id-row confirmation_id k after.confirmations c kept in
      let there : row confirmation_id c.id after.confirmations ≡ some c =
        ground (arith, kept, c_id) in
      let at_hand : row confirmation_id held.id after.confirmations ≡ some c =
        ground (arith, kept, is_k) in
      let writes = by_status_pending db after held c held.status at_hand pending in
      rw (none_counted, after_update)
        (rw own (
          rw writes (
            (
              refl,
              ground (
                arith,
                c_id,
                row-put_self confirmation_id (as_expired c) after.confirmations c there,
              ),
            ))))
