-- ===== src/ReminderModule/Invariant.antt =====
-- The use cases on reminders: the keys of the tables, and how the transactions end.
use personal_deadline_manage.Common.{◌≡◌, refl, Option, none, some}
use personal_deadline_manage.Model.{Uuid, Moment, ReminderStatus, Column, known, unknown, Reminder}
use personal_deadline_manage.Store.{Session, Db}
use personal_deadline_manage.Store.Keeps.{Keeps, keeps_rules, Keeps-pure, Keeps-raise}
use personal_deadline_manage.Store.Atomic.{
  Isolated, isolated_rules, Isolated-pure, Isolated-raise, IsQuiet, Settles, transact-Settles,
}
use personal_deadline_manage.Store.WellFormed.{WellFormed}
use personal_deadline_manage.Store.Deletes.{
  delete_found_reminder-Keeps, delete_found_reminder-Isolated,
}
use personal_deadline_manage.ReminderService
use personal_deadline_manage.ReminderService.{check_deadline, status_value, assign}
use personal_deadline_manage.ReminderModule.{create_reminder, update_reminder, delete_reminder}

pub check_deadline-Keeps :
    (P : Db → Type 0) (task : Uuid) (remind_at : Option Moment)
    → Keeps P (check_deadline task remind_at)
unfolding check_deadline
check_deadline-Keeps P task none = search keeps_rules
check_deadline-Keeps P task (some t) = search keeps_rules depth 12

check_deadline-Isolated :
    (task : Uuid) (remind_at : Option Moment) → Isolated (check_deadline task remind_at)
unfolding check_deadline
check_deadline-Isolated task none = search isolated_rules
check_deadline-Isolated task (some t) = search isolated_rules depth 12

pub status_value-Keeps :
    (P : Db → Type 0) (status : Option (Column ReminderStatus)) → Keeps P (status_value status)
status_value-Keeps P none = Keeps-pure P none
status_value-Keeps P (some (known ReminderStatus.pending)) = Keeps-pure P _
status_value-Keeps P (some (known ReminderStatus.cancelled)) = Keeps-pure P _
status_value-Keeps P (some (known ReminderStatus.sent)) = Keeps-raise P _
status_value-Keeps P (some (unknown text)) = Keeps-raise P _

status_value-Isolated : (status : Option (Column ReminderStatus)) → Isolated (status_value status)
status_value-Isolated none = Isolated-pure none
status_value-Isolated (some (known ReminderStatus.pending)) = Isolated-pure _
status_value-Isolated (some (known ReminderStatus.cancelled)) = Isolated-pure _
status_value-Isolated (some (known ReminderStatus.sent)) = Isolated-raise _
status_value-Isolated (some (unknown text)) = Isolated-raise _

pub task_id-assign :
    (remind_at : Option Moment) (status : Option ReminderStatus) (r : Reminder)
    → (assign remind_at status r).task_id ≡ r.task_id
unfolding assign
task_id-assign remind_at status r = refl

module _ (fresh : Uuid) (now : Moment) (task : Uuid) (remind_at : Moment) where
  pub service_create_reminder-Isolated :
      Isolated (ReminderService.create_reminder fresh now task remind_at)
  unfolding ReminderService.create_reminder
  service_create_reminder-Isolated = search isolated_rules depth 12

  pub create_reminder-Settles :
      (s : Session)
      → IsQuiet s
      → Settles s.committed
          (ReminderService.create_reminder fresh now task remind_at s)
          (create_reminder fresh now task remind_at s)
  unfolding create_reminder
  create_reminder-Settles s q = transact-Settles _ s service_create_reminder-Isolated q

module _ (now : Moment) (k : Uuid) (remind_at : Option Moment)
    (status : Option (Column ReminderStatus)) where
  pub service_update_reminder-Isolated :
      Isolated (ReminderService.update_reminder now k remind_at status)
  unfolding ReminderService.update_reminder
  service_update_reminder-Isolated =
      search (isolated_rules, check_deadline-Isolated, status_value-Isolated) depth 12

  pub update_reminder-Settles :
      (s : Session)
      → IsQuiet s
      → Settles s.committed
          (ReminderService.update_reminder now k remind_at status s)
          (update_reminder now k remind_at status s)
  unfolding update_reminder
  update_reminder-Settles s q = transact-Settles _ s service_update_reminder-Isolated q

module _ (k : Uuid) where
  pub delete_reminder-WellFormed : Keeps WellFormed (delete_reminder k)
  unfolding delete_reminder ReminderService.delete_reminder
  delete_reminder-WellFormed = search (keeps_rules, delete_found_reminder-Keeps) depth 12

  pub service_delete_reminder-Isolated : Isolated (ReminderService.delete_reminder k)
  unfolding ReminderService.delete_reminder
  service_delete_reminder-Isolated =
      search (isolated_rules, delete_found_reminder-Isolated) depth 12

  pub delete_reminder-Settles :
      (s : Session)
      → IsQuiet s
      → Settles s.committed (ReminderService.delete_reminder k s) (delete_reminder k s)
  unfolding delete_reminder
  delete_reminder-Settles s q = transact-Settles _ s service_delete_reminder-Isolated q
