-- ===== src/ReminderModule/Updates.antt =====
-- What updating a reminder commits, when nothing disturbs it.
use personal_deadline_manage.Common.{
  ◌≡◌, ◌⊎◌, true, false, refl, ◌≤◌, inl, inr, Option, none, some, [], arith, Bool-cases, ltb,
}
use personal_deadline_manage.Model.{
  Uuid, Moment, Task, Reminder, ReminderStatus, Column, known, unknown, is_sent,
}
use personal_deadline_manage.Store.{
  Db, Result, ok, err, Session, open_session, statement, commit, rollback, transact,
  invalid_reminder,
}
use personal_deadline_manage.Store.Rows.{row, put}
use personal_deadline_manage.Store.TaskRepository
use personal_deadline_manage.Store.TaskRepository.{task_id}
use personal_deadline_manage.Store.ReminderRepository
use personal_deadline_manage.Store.ReminderRepository.{reminder_id, touch, update_reminder_row}
use personal_deadline_manage.ReminderService
use personal_deadline_manage.ReminderService.{get_reminder, check_deadline, assign}
use personal_deadline_manage.ReminderModule.{update_reminder}

-- The new time is not after the deadline of the task.
abbrev pub IsTimely : Task → Option Moment → Type 0
IsTimely t none = Unit
IsTimely t (some remind_at) = remind_at ≤ t.deadline

-- A caller sets PENDING and CANCELLED only.
abbrev pub IsAssignable : Option (Column ReminderStatus) → Type 0
IsAssignable none = Unit
IsAssignable (some (known ReminderStatus.pending)) = Unit
IsAssignable (some (known ReminderStatus.cancelled)) = Unit
IsAssignable (some (known ReminderStatus.sent)) = ⊥
IsAssignable (some (unknown text)) = ⊥

abbrev pub new_time : Option Moment → Moment → Moment
new_time none old = old
new_time (some t) old = t

abbrev pub new_status : Option (Column ReminderStatus) → ReminderStatus → ReminderStatus
new_status (some (known status)) old = status
new_status _ old = old

module _ (now : Moment) (remind_at : Option Moment) (status : Option (Column ReminderStatus))
    (db : Db) (old : Reminder) (t : Task) where
  -- The row with the given values; its `updated_at` moves where one of them is new.
  abbrev pub changed : Reminder
  changed =
      touch now
        (λ r. record r {
          remind_at = new_time remind_at r.remind_at;
          status = new_status status r.status;
        })
        old

  abbrev pub IsAccepted : Type 0
  IsAccepted = (is_sent old.status ≡ false) × IsTimely t remind_at × IsAssignable status

  abbrev pub Updates : Result Reminder × Session → Type 0
  Updates (r, s) =
      (IsAccepted
        × (r ≡ ok changed)
        × (s.committed ≡ record db { reminders = put reminder_id changed db.reminders }))
      ⊎ ((¬ IsAccepted) × (r ≡ err invalid_reminder) × (s.committed ≡ db))

module _ (now : Moment) (k : Uuid) (db : Db) (old : Reminder) (t : Task)
    (here : row reminder_id k db.reminders ≡ some old)
    (parent : row task_id old.task_id db.tasks ≡ some t) where
  update_sent :
      (remind_at : Option Moment) (status : Option (Column ReminderStatus))
      → is_sent old.status ≡ true
      → Updates now remind_at status db old t
          (update_reminder now k remind_at status (open_session db []))
  unfolding update_reminder ReminderService.update_reminder get_reminder
      ReminderRepository.get_by_id statement transact rollback
  update_sent remind_at status sent =
      rw here (rw sent (inr ((λ a. ground (arith, sent, a.0)), refl, refl)))

  update_late :
      (remind_at : Moment) (status : Option (Column ReminderStatus))
      → is_sent old.status ≡ false
      → ltb t.deadline remind_at ≡ true
      → Updates now
          (some remind_at)
          status
          db
          old
          t
          (update_reminder now k (some remind_at) status (open_session db []))
  unfolding update_reminder ReminderService.update_reminder get_reminder check_deadline
      ReminderRepository.get_by_id TaskRepository.get_by_id statement transact rollback
  update_late remind_at status unsent late =
      rw here (rw unsent (rw parent (rw late (inr ((λ a. ground (arith, late, a.1)), refl, refl)))))

  update_kept :
      (status : Option (Column ReminderStatus))
      → is_sent old.status ≡ false
      → Updates now none status db old t (update_reminder now k none status (open_session db []))
  unfolding update_reminder ReminderService.update_reminder get_reminder check_deadline assign touch
      ReminderRepository.get_by_id ReminderRepository.update update_reminder_row statement commit
      transact rollback
  update_kept none unsent = rw here (rw unsent (rw here (inl ((refl, tt, tt), refl, refl))))
  update_kept (some (known ReminderStatus.pending)) unsent =
      rw here (rw unsent (rw here (inl ((refl, tt, tt), refl, refl))))
  update_kept (some (known ReminderStatus.cancelled)) unsent =
      rw here (rw unsent (rw here (inl ((refl, tt, tt), refl, refl))))
  update_kept (some (known ReminderStatus.sent)) unsent =
      rw here (rw unsent (inr ((λ a. a.2), refl, refl)))
  update_kept (some (unknown text)) unsent = rw here (rw unsent (inr ((λ a. a.2), refl, refl)))

  update_timely :
      (remind_at : Moment) (status : Option (Column ReminderStatus))
      → is_sent old.status ≡ false
      → ltb t.deadline remind_at ≡ false
      → Updates now
          (some remind_at)
          status
          db
          old
          t
          (update_reminder now k (some remind_at) status (open_session db []))
  unfolding update_reminder ReminderService.update_reminder get_reminder check_deadline assign touch
      ReminderRepository.get_by_id ReminderRepository.update update_reminder_row
      TaskRepository.get_by_id statement commit transact rollback
  update_timely remind_at none unsent timely = rw here (
      rw unsent
        (rw parent (rw timely (rw here (inl ((refl, ground (arith, timely), tt), refl, refl))))))
  update_timely remind_at (some (known ReminderStatus.pending)) unsent timely = rw here (
      rw unsent
        (rw parent (rw timely (rw here (inl ((refl, ground (arith, timely), tt), refl, refl))))))
  update_timely remind_at (some (known ReminderStatus.cancelled)) unsent timely = rw here (
      rw unsent
        (rw parent (rw timely (rw here (inl ((refl, ground (arith, timely), tt), refl, refl))))))
  update_timely remind_at (some (known ReminderStatus.sent)) unsent timely =
      rw here (rw unsent (rw parent (rw timely (inr ((λ a. a.2), refl, refl)))))
  update_timely remind_at (some (unknown text)) unsent timely =
      rw here (rw unsent (rw parent (rw timely (inr ((λ a. a.2), refl, refl)))))

  update_unsent :
      (remind_at : Option Moment) (status : Option (Column ReminderStatus))
      → is_sent old.status ≡ false
      → Updates now remind_at status db old t
          (update_reminder now k remind_at status (open_session db []))
  update_unsent none status unsent = update_kept status unsent
  update_unsent (some remind_at) status unsent = elim (Bool-cases (ltb t.deadline remind_at)) [
    | inl late ↦ update_late remind_at status unsent late
    | inr timely ↦ update_timely remind_at status unsent timely
  ]

  -- An undisturbed update of a stored reminder whose task is stored succeeds exactly where the
  -- reminder is not SENT, the new time, if one is given, is not after the task's deadline, and the
  -- new status, if one is given, is PENDING or CANCELLED. Then it returns the reminder with these
  -- values and commits it in place of the old row, and nothing else; otherwise it raises
  -- InvalidReminderError and commits nothing.
  pub update_reminder-Updates :
      (remind_at : Option Moment) (status : Option (Column ReminderStatus))
      → Updates now remind_at status db old t
          (update_reminder now k remind_at status (open_session db []))
  update_reminder-Updates remind_at status = elim (Bool-cases (is_sent old.status)) [
    | inl sent ↦ update_sent remind_at status sent
    | inr unsent ↦ update_unsent remind_at status unsent
  ]
