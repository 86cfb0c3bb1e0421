-- ===== src/ReminderModule/Creates.antt =====
-- What creating a reminder commits, when nothing disturbs it.
use personal_deadline_manage.Common.{
  ◌≡◌, ◌⊎◌, true, false, refl, ◌≤◌, ◌<◌, ◌++◌, inl, inr, Option, none, some, [], ◌∷◌, arith,
  Bool-cases, Option-cases, ltb,
}
use personal_deadline_manage.Model.{Uuid, Moment, Task, Reminder, ReminderStatus}
use personal_deadline_manage.Store.{
  Db, Result, ok, err, Session, open_session, statement, commit, rollback, transact, task_not_found,
  invalid_reminder,
}
use personal_deadline_manage.Store.Rows.{row}
use personal_deadline_manage.Store.TaskRepository
use personal_deadline_manage.Store.TaskRepository.{task_id}
use personal_deadline_manage.Store.ReminderRepository
use personal_deadline_manage.Store.ReminderRepository.{reminder_id, insert_reminder}
use personal_deadline_manage.ReminderService
use personal_deadline_manage.ReminderModule.{create_reminder}

module _ (fresh : Uuid) (now : Moment) (task : Uuid) (remind_at : Moment) where
  abbrev pub new_reminder : Reminder
  new_reminder = record {
    id = fresh;
    task_id = task;
    remind_at = remind_at;
    status = ReminderStatus.pending;
    created_at = now;
    updated_at = now;
  }

  abbrev pub Creates : Db → Option Task → Result Reminder × Session → Type 0
  Creates db none (r, s) = (r ≡ err (task_not_found task)) × (s.committed ≡ db)
  Creates db (some t) (r, s) =
      ((t.deadline < remind_at) × (r ≡ err invalid_reminder) × (s.committed ≡ db))
      ⊎ ((remind_at ≤ t.deadline)
          × (r ≡ ok new_reminder)
          × (s.committed ≡ record db { reminders = db.reminders ++ new_reminder ∷ [] }))

  create_missing :
      (db : Db)
      → row task_id task db.tasks ≡ none
      → Creates db none (create_reminder fresh now task remind_at (open_session db []))
  unfolding create_reminder ReminderService.create_reminder TaskRepository.get_by_id statement
      transact rollback
  create_missing db gone = rw gone ((refl, refl))

  create_late :
      (db : Db) (t : Task)
      → row task_id task db.tasks ≡ some t
      → ltb t.deadline remind_at ≡ true
      → Creates db (some t) (create_reminder fresh now task remind_at (open_session db []))
  unfolding create_reminder ReminderService.create_reminder TaskRepository.get_by_id statement
      transact rollback
  create_late db t here late = rw here (rw late (inl (ground arith, refl, refl)))

  create_timely :
      (db : Db) (t : Task)
      → row task_id task db.tasks ≡ some t
      → row reminder_id fresh db.reminders ≡ none
      → ltb t.deadline remind_at ≡ false
      → Creates db (some t) (create_reminder fresh now task remind_at (open_session db []))
  unfolding create_reminder ReminderService.create_reminder TaskRepository.get_by_id
      ReminderRepository.create insert_reminder statement commit transact
  create_timely db t here free timely =
      rw here (rw timely (rw here (rw free (inr (ground arith, refl, refl)))))

  -- Where the new row's id is free, an undisturbed creation of a reminder raises TaskNotFoundError
  -- if there is no such task and InvalidReminderError if the time is after the task's deadline,
  -- and then commits nothing; otherwise it returns a PENDING reminder of that task at that time,
  -- and commits it beside the rows that there were.
  pub create_reminder-Creates :
      (db : Db)
      → row reminder_id fresh db.reminders ≡ none
      → Creates db
          (row task_id task db.tasks)
          (create_reminder fresh now task remind_at (open_session db []))
  create_reminder-Creates db free = elim (Option-cases (row task_id task db.tasks)) [
    | inl gone ↦ rw gone (create_missing db gone)
    | inr (t, here) ↦ rw here (elim (Bool-cases (ltb t.deadline remind_at)) [
      | inl late ↦ create_late db t here late
      | inr timely ↦ create_timely db t here free timely
    ])
  ]
