-- ===== src/ReminderModule/Sent.antt =====
-- A reminder that is SENT under the use case that updates reminders.
use personal_deadline_manage.Common.{
  ◌≡◌, refl, ◌≢◌, ◌∙◌, sym, Bool, true, false, inl, inr, Option, none, some, arith, Option-cases,
}
use personal_deadline_manage.Model.{Uuid, Moment, Reminder, ReminderStatus, Column, is_sent}
use personal_deadline_manage.Store.{
  Db, Result, ok, err, Session, Action, select, or_raise, raise_if, reminder_not_found,
  invalid_reminder, bind_result, ◌>>=◌, ◌>>◌,
}
use personal_deadline_manage.Store.Keeps.{
  Keeps, Holds, keeps_rules, Keeps-bind_select, Keeps-transact,
}
use personal_deadline_manage.Store.Rows.{row, id-row, row-put_ne}
use personal_deadline_manage.Store.ReminderRepository
use personal_deadline_manage.Store.ReminderRepository.{reminder_id, touch, update_reminder_row}
use personal_deadline_manage.ReminderService
use personal_deadline_manage.ReminderService.{get_reminder, check_deadline, status_value, assign}
use personal_deadline_manage.ReminderModule.{update_reminder}
use personal_deadline_manage.ReminderModule.Invariant.{check_deadline-Keeps, status_value-Keeps}

module _ {A B C : Type 0} (P : Db → Type 0) (f : A → Action B) (g : B → Action C) where
  regroup-Holds :
      (r : Result A) (s : Session)
      → Holds P (bind_result r (λ a. f a >>= g) s).1
      → Holds P (bind_result (bind_result r f s).0 g (bind_result r f s).1).1
  regroup-Holds (ok a) s h = h
  regroup-Holds (err e) s h = h

  regroup-Keeps : (m : Action A) → Keeps P (m >>= λ a. f a >>= g) → Keeps P ((m >>= f) >>= g)
  regroup-Keeps m k = record { at = λ s h. regroup-Holds (m s).0 (m s).1 (k.at s h) }

module _ (r : Reminder) (sent : is_sent r.status ≡ true) where
  -- The row is in the table as it is.
  abbrev pub Stays : Db → Type 0
  Stays db = row reminder_id r.id db.reminders ≡ some r

  id-touch :
      (now : Moment) (remind_at : Option Moment) (status : Option ReminderStatus) (old : Reminder)
      → (touch now (assign remind_at status) old).id ≡ old.id
  unfolding touch assign
  id-touch now remind_at status old = ground arith

  update_row-Stays :
      (now : Moment) (k : Uuid) (remind_at : Option Moment) (status : Option ReminderStatus)
      → k ≢ r.id
      → (db : Db) → Stays db
      → Stays (update_reminder_row now k (assign remind_at status) db).1
  unfolding update_reminder_row
  update_row-Stays now k remind_at status other db h =
      elim (Option-cases (row reminder_id k db.reminders)) [
        | inl missing ↦ rw (missing, update_reminder_row) h
        | inr (old, found) ↦
            rw (found, update_reminder_row)
              (row-put_ne reminder_id r.id (touch now (assign remind_at status) old) db.reminders
                  (λ same. other (
                    sym (id-row reminder_id k db.reminders old found)
                    ∙ sym (id-touch now remind_at status old)
                    ∙ same))
                ∙ h)
      ]

  module _ (now : Moment) (k : Uuid) (remind_at : Option Moment)
      (status : Option (Column ReminderStatus)) where
    -- What follows the guard on SENT.
    abbrev rest : Reminder → Action Reminder
    rest reminder = do
      check_deadline reminder.task_id remind_at
      new_status ← status_value status
      ReminderRepository.update now k (assign remind_at new_status)

    rest-Keeps : (reminder : Reminder) → k ≢ r.id → Keeps Stays (rest reminder)
    unfolding ReminderRepository.update
    rest-Keeps reminder other =
        let writes = λ (st : Option ReminderStatus). update_row-Stays now k remind_at st other in
        search (keeps_rules, check_deadline-Keeps, status_value-Keeps, writes) depth 12

    guarded-Keeps :
        (reminder : Reminder)
        → (k ≡ r.id → reminder ≡ r)
        → (b : Bool) → is_sent reminder.status ≡ b
        → Keeps Stays (raise_if b invalid_reminder >> rest reminder)
    guarded-Keeps reminder mine true e = record { at = λ s h. h }
    guarded-Keeps reminder mine false e =
        rest-Keeps reminder (λ same. (let here = mine same in ground (arith, e, sent, here)))

    found-Keeps :
        (found : Option Reminder)
        → (k ≡ r.id → found ≡ some r)
        → Keeps Stays (
            or_raise found (reminder_not_found k) >>= λ reminder.
            raise_if (is_sent reminder.status) invalid_reminder >> rest reminder)
    found-Keeps none mine = record { at = λ s h. h }
    found-Keeps (some reminder) mine =
        guarded-Keeps reminder (λ same. (let here = mine same in ground (arith, here)))
          (is_sent reminder.status) refl

    service_update-Stays : Keeps Stays (ReminderService.update_reminder now k remind_at status)
    unfolding ReminderService.update_reminder get_reminder ReminderRepository.get_by_id
    service_update-Stays =
        regroup-Keeps Stays (λ found. or_raise found (reminder_not_found k))
          (λ reminder. raise_if (is_sent reminder.status) invalid_reminder >> rest reminder)
          (select (λ db. row reminder_id k db.reminders))
          (Keeps-bind_select Stays (λ db. row reminder_id k db.reminders) _
            (λ db h.
              found-Keeps (row reminder_id k db.reminders) (λ same. ground (arith, h, same))))

    -- A reminder row that is SENT stays as it is, in the committed tables and those that the
    -- session sees, whatever reminder is updated with whatever arguments, with any errors, and
    -- while other transactions keep the row.
    pub update_reminder-Stays : Keeps Stays (update_reminder now k remind_at status)
    unfolding update_reminder
    update_reminder-Stays = Keeps-transact Stays _ service_update-Stays
