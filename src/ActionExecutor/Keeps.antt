-- ===== src/ActionExecutor/Keeps.antt =====
-- What an execution keeps of the tables, if the statements that its action may run keep it.
use personal_deadline_manage.Common.{◌≡◌, refl, Bool, true, Option, none, some}
use personal_deadline_manage.Common.Int.{ℤ}
use personal_deadline_manage.Model.{
  Uuid, Text, Moment, Task, TaskPriority, TaskStatus, Column, Reminder, ReminderStatus,
}
use personal_deadline_manage.Store.{Db, Result, ok, err, Error}
use personal_deadline_manage.Store.Keeps.{
  Keeps, Keeps-pure, Keeps-raise, Keeps-statement, keeps_rules,
}
use personal_deadline_manage.Store.TaskRepository
use personal_deadline_manage.Store.TaskRepository.{insert_task, update_task_row, delete_task_row}
use personal_deadline_manage.Store.ReminderRepository
use personal_deadline_manage.Store.ReminderRepository.{
  insert_reminder, update_reminder_row, delete_reminder_row,
}
use personal_deadline_manage.TaskService
use personal_deadline_manage.TaskService.{Field}
use personal_deadline_manage.TaskModule
use personal_deadline_manage.ReminderService
use personal_deadline_manage.ReminderModule
use personal_deadline_manage.ReminderModule.Invariant.{
  check_deadline-Keeps, status_value-Keeps, task_id-assign,
}
use personal_deadline_manage.ActionExecutor.Changes.{
  from_result, check_duration, check_field, refused, create_refused, create_with, no_row,
  update_refused, update_texts,
}

-- The statements of the use cases keep `P`; those that delete only if deletions are allowed.
pub record Writes (P : Db → Type 0) (deletes : Bool) : Type 0 where
  pub insert_task : (t : Task) (db : Db) → P db → P (insert_task t db).1
  pub update_task :
      (now : Moment) (k : Uuid) (change : Task → Task) (db : Db)
      → P db
      → P (update_task_row now k change db).1
  pub insert_reminder : (r : Reminder) (db : Db) → P db → P (insert_reminder r db).1
  pub update_reminder :
      (now : Moment) (k : Uuid) (change : Reminder → Reminder) (db : Db)
      → ((r : Reminder) → (change r).task_id ≡ r.task_id)
      → P db
      → P (update_reminder_row now k change db).1
  pub delete_task : deletes ≡ true → (k : Uuid) (db : Db) → P db → P (delete_task_row k db).1
  pub delete_reminder :
      deletes ≡ true → (k : Uuid) (db : Db) → P db → P (delete_reminder_row k db).1

module _ (P : Db → Type 0) where
  pub from_result-Keeps : {A : Type 0} (r : Result A) → Keeps P (from_result r)
  from_result-Keeps (ok a) = Keeps-pure P a
  from_result-Keeps (err e) = Keeps-raise P e

  check_duration-Keeps : (d : Result (Option ℤ)) → Keeps P (check_duration d)
  check_duration-Keeps (ok d) = search keeps_rules
  check_duration-Keeps (err e) = search keeps_rules

  check_field-Keeps : (d : Result (Field (Option ℤ))) → Keeps P (check_field d)
  check_field-Keeps (ok d) = search keeps_rules
  check_field-Keeps (err e) = search keeps_rules

  refused-Keeps : {A : Type 0} → Keeps P (refused {A = A})
  unfolding refused
  refused-Keeps = Keeps-statement P _ (λ db p. p)

  pub no_row-Keeps : {A : Type 0} (e : Error) → Keeps P (no_row {A = A} e)
  unfolding no_row
  no_row-Keeps e = search keeps_rules depth 8

  create_refused-Keeps :
      (now deadline : Moment) (d : Result (Option ℤ)) → Keeps P (create_refused now deadline d)
  unfolding create_refused
  create_refused-Keeps now deadline d =
      search (keeps_rules, check_duration-Keeps, refused-Keeps) depth 8

  update_refused-Keeps :
      (now : Moment) (k : Uuid) (deadline : Option Moment) (d : Result (Field (Option ℤ)))
      → Keeps P (update_refused now k deadline d)
  unfolding update_refused TaskService.get_task
  update_refused-Keeps now k deadline d =
      search (keeps_rules, check_field-Keeps, refused-Keeps) depth 8

  module _ {deletes : Bool} (w : Writes P deletes) where
    created_task :
        (fresh : Uuid) (now : Moment) (name : Text) (description : Option Text) (deadline : Moment)
        (priority : Column TaskPriority) (duration : Option ℤ)
        → Keeps P (TaskModule.create_task fresh now name description deadline priority duration)
    unfolding TaskModule.create_task TaskService.create_task
    created_task fresh now name description deadline priority duration =
        search (keeps_rules, w.insert_task) depth 12

    pub create_with-Keeps :
        (fresh : Uuid) (now deadline : Moment) (name : Option Text)
        (description : Option (Option Text)) (priority : Option (Column TaskPriority))
        (duration : Result (Option ℤ))
        → Keeps P (create_with fresh now deadline name description priority duration)
    create_with-Keeps fresh now deadline (some n) (some d) (some p) (ok m) =
        created_task fresh now n d deadline p m
    create_with-Keeps fresh now deadline (some n) (some d) (some p) (err e) =
        create_refused-Keeps now deadline (err e)
    create_with-Keeps fresh now deadline (some n) (some d) none m =
        create_refused-Keeps now deadline m
    create_with-Keeps fresh now deadline (some n) none p m = create_refused-Keeps now deadline m
    create_with-Keeps fresh now deadline none d p m = create_refused-Keeps now deadline m

    updated_task :
        (now : Moment) (k : Uuid) (patch : TaskService.TaskPatch)
        → Keeps P (TaskModule.update_task now k patch)
    unfolding TaskModule.update_task TaskService.update_task
    updated_task now k patch = search (keeps_rules, w.update_task) depth 12

    pub update_texts-Keeps :
        (now : Moment) (k : Uuid) (deadline : Option Moment) (d : Result (Field (Option ℤ)))
        (name : Option (Option Text)) (description : Option (Option Text))
        (priority : Option (Option (Column TaskPriority)))
        (status : Option (Option (Column TaskStatus)))
        → Keeps P (update_texts now k deadline d name description priority status)
    update_texts-Keeps now k deadline (ok d) (some n) (some t) (some p) (some s) =
        updated_task now k _
    update_texts-Keeps now k deadline (ok d) (some n) (some t) (some p) none =
        update_refused-Keeps now k deadline (ok d)
    update_texts-Keeps now k deadline (ok d) (some n) (some t) none s =
        update_refused-Keeps now k deadline (ok d)
    update_texts-Keeps now k deadline (ok d) (some n) none p s =
        update_refused-Keeps now k deadline (ok d)
    update_texts-Keeps now k deadline (ok d) none t p s = update_refused-Keeps now k deadline (ok d)
    update_texts-Keeps now k deadline (err e) n t p s = update_refused-Keeps now k deadline (err e)

    pub created_reminder :
        (fresh : Uuid) (now : Moment) (task : Uuid) (remind_at : Moment)
        → Keeps P (ReminderModule.create_reminder fresh now task remind_at)
    unfolding ReminderModule.create_reminder ReminderService.create_reminder
    created_reminder fresh now task remind_at = search (keeps_rules, w.insert_reminder) depth 12

    pub updated_reminder :
        (now : Moment) (k : Uuid) (remind_at : Option Moment)
        (status : Option (Column ReminderStatus))
        → Keeps P (ReminderModule.update_reminder now k remind_at status)
    unfolding ReminderModule.update_reminder ReminderService.update_reminder
    updated_reminder now k remind_at status =
        search
          (keeps_rules, check_deadline-Keeps, status_value-Keeps, w.update_reminder, task_id-assign)
          depth 12

  module _ (w : Writes P true) where
    found_task : (k : Uuid) (o : Option Task) → Keeps P (TaskRepository.delete_found k o)
    found_task k none = Keeps-pure P _
    found_task k (some t) = Keeps-statement P _ (w.delete_task refl k)

    pub deleted_task : (k : Uuid) → Keeps P (TaskModule.delete_task k)
    unfolding TaskModule.delete_task TaskService.delete_task
    deleted_task k = search (keeps_rules, found_task) depth 12

    found_reminder :
        (k : Uuid) (o : Option Reminder) → Keeps P (ReminderRepository.delete_found k o)
    found_reminder k none = Keeps-pure P _
    found_reminder k (some r) = Keeps-statement P _ (w.delete_reminder refl k)

    pub deleted_reminder : (k : Uuid) → Keeps P (ReminderModule.delete_reminder k)
    unfolding ReminderModule.delete_reminder ReminderService.delete_reminder
    deleted_reminder k = search (keeps_rules, found_reminder) depth 12
