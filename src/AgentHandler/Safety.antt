-- ===== src/AgentHandler/Safety.antt =====
-- What no request does to the tables.
use personal_deadline_manage.Common.{
  ◌≡◌, refl, ◌≢◌, Bool, false, none, arith, Option-cases, inl, inr,
}
use personal_deadline_manage.Model.{Uuid, Moment, Task, Reminder, PendingConfirmation}
use personal_deadline_manage.Store.{Db, Session, ok}
use personal_deadline_manage.Store.Keeps.{Holds}
use personal_deadline_manage.Store.Rows.{row, row-append, row-put_keeps, row-update_where}
use personal_deadline_manage.Store.TaskRepository
use personal_deadline_manage.Store.TaskRepository.{task_id, insert_task, update_task_row}
use personal_deadline_manage.Store.ReminderRepository
use personal_deadline_manage.Store.ReminderRepository.{
  reminder_id, insert_reminder, update_reminder_row,
}
use personal_deadline_manage.Store.ConfirmationRepository.{
  insert_confirmation, expire, confirmation_id, lapsed, as_expired,
}
use personal_deadline_manage.AgentInterpreter.{InterpretationOutput, InterpretationResponseType}
use personal_deadline_manage.Guardrails.Decision.{permitted}
use personal_deadline_manage.AgentHandler.Answers.{AgentChatRequest, Settings, Outside, Reads}
use personal_deadline_manage.AgentHandler.Pipeline.{agent_chat}
use personal_deadline_manage.AgentHandler.Keeps.{Requests}
use personal_deadline_manage.AgentHandler.Confirms.{agent_chat-Holds}

-- The rows of `before` are still there, changed or not.
pub record Retains (before db : Db) : Type 0 where
  pub tasks : (k : Uuid) → row task_id k before.tasks ≢ none → row task_id k db.tasks ≢ none
  pub reminders :
      (k : Uuid) → row reminder_id k before.reminders ≢ none → row reminder_id k db.reminders ≢ none

module _ (before : Db) where
  insert_task-Retains :
      (t : Task) (db : Db) → Retains before db → Retains before (insert_task t db).1
  unfolding insert_task
  insert_task-Retains t db h = elim (Option-cases (row task_id t.id db.tasks)) [
    | inl free ↦
        rw (free, insert_task)
          (record {
            tasks = λ k there.
                (let kept = h.tasks k there in
                  ground (arith, row-append task_id k db.tasks t, kept));
            reminders = h.reminders;
          })
    | inr (old, taken) ↦ rw (taken, insert_task) h
  ]

  update_task_row-Retains :
      (now : Moment) (k : Uuid) (change : Task → Task) (db : Db)
      → Retains before db
      → Retains before (update_task_row now k change db).1
  unfolding update_task_row
  update_task_row-Retains now k change db h = elim (Option-cases (row task_id k db.tasks)) [
    | inl gone ↦ rw (gone, update_task_row) h
    | inr (old, here) ↦
        rw (here, update_task_row)
          (record {
            tasks = λ j there.
                row-put_keeps task_id j (TaskRepository.touch now change old) db.tasks
                  (h.tasks j there);
            reminders = h.reminders;
          })
  ]

  insert_reminder-Retains :
      (r : Reminder) (db : Db) → Retains before db → Retains before (insert_reminder r db).1
  unfolding insert_reminder
  insert_reminder-Retains r db h = elim (Option-cases (row task_id r.task_id db.tasks)) [
    | inl orphan ↦ rw (orphan, insert_reminder) h
    | inr (t, parent) ↦ elim (Option-cases (row reminder_id r.id db.reminders)) [
      | inl free ↦
          rw (parent, insert_reminder)
            (rw free (record {
              tasks = h.tasks;
              reminders = λ k there.
                  (let kept = h.reminders k there in
                    ground (arith, row-append reminder_id k db.reminders r, kept));
            }))
      | inr (old, taken) ↦ rw (parent, insert_reminder) (rw taken h)
    ]
  ]

  update_reminder_row-Retains :
      (now : Moment) (k : Uuid) (change : Reminder → Reminder) (db : Db)
      → ((r : Reminder) → (change r).task_id ≡ r.task_id)
      → Retains before db
      → Retains before (update_reminder_row now k change db).1
  unfolding update_reminder_row
  update_reminder_row-Retains now k change db keep h =
      elim (Option-cases (row reminder_id k db.reminders)) [
        | inl gone ↦ rw (gone, update_reminder_row) h
        | inr (old, here) ↦
            rw (here, update_reminder_row)
              (record {
                tasks = h.tasks;
                reminders = λ j there.
                    row-put_keeps reminder_id j (ReminderRepository.touch now change old)
                      db.reminders (h.reminders j there);
              })
      ]

  insert_confirmation-Retains :
      (c : PendingConfirmation) (db : Db)
      → Retains before db
      → Retains before (insert_confirmation c db).1
  unfolding insert_confirmation
  insert_confirmation-Retains c db h =
      elim (Option-cases (row confirmation_id c.id db.confirmations)) [
        | inl free ↦
            rw (free, insert_confirmation) (record { tasks = h.tasks; reminders = h.reminders })
        | inr (old, taken) ↦ rw (taken, insert_confirmation) h
      ]

  expire-Retains : (now : Moment) (db : Db) → Retains before db → Retains before (expire now db).1
  unfolding expire
  expire-Retains now db h = record { tasks = h.tasks; reminders = h.reminders }

  Retains-Requests : (allowed : Bool) → Requests (Retains before) allowed
  Retains-Requests allowed = record {
    writes = λ a. record {
      insert_task = insert_task-Retains;
      update_task = update_task_row-Retains;
      insert_reminder = insert_reminder-Retains;
      update_reminder = update_reminder_row-Retains;
      delete_task = λ e. absurd (ground arith);
      delete_reminder = λ e. absurd (ground arith);
    };
    insert = λ a. insert_confirmation-Retains;
    expire = expire-Retains;
  }

-- The rows of `before` as they were.
pub record SameRows (before db : Db) : Type 0 where
  pub tasks : db.tasks ≡ before.tasks
  pub reminders : db.reminders ≡ before.reminders
  pub confirmations :
      (k : Uuid)
      → row confirmation_id k before.confirmations ≡ none
      → row confirmation_id k db.confirmations ≡ none

SameRows-Requests : (before : Db) → Requests (SameRows before) false
unfolding expire
SameRows-Requests before = record {
  writes = λ a. absurd (ground arith);
  insert = λ a. absurd (ground arith);
  expire = λ now db h. record {
    tasks = h.tasks;
    reminders = h.reminders;
    confirmations = λ k free.
        (let gone = h.confirmations k free in
          ground (
            arith,
            row-update_where confirmation_id (lapsed now) as_expired (λ c. refl) k db.confirmations,
            gone,
          ));
  };
}

module _ (x : Outside) (settings : Settings) (reads : Reads) (request : AgentChatRequest) where
  -- If the message is not interpreted as a confirmation, then each task and each reminder that has
  -- a row before has one after the request, in the committed tables and those that the session
  -- sees, whatever fails, if other transactions remove none.
  pub agent_chat-Retains :
      (before : Db) (s : Session)
      → ((o : InterpretationOutput)
          → x.interpretation request.message ≡ ok o
          → o.response_type ≢ InterpretationResponseType.confirmation)
      → Holds (Retains before) s
      → Holds (Retains before) (agent_chat x settings reads request s).1
  agent_chat-Retains before s not_confirmed h =
      agent_chat-Holds x settings reads request (Retains before) (Retains-Requests before _)
        (λ o is confirms. absurd (not_confirmed o is confirms)) s h

  -- If neither single-user mode is on nor the request's user is the default user, and the message
  -- is not interpreted as a confirmation, then the request leaves the tasks and the reminders as
  -- they were and adds no confirmation, whatever fails, if other transactions do so too.
  pub agent_chat-SameRows :
      (before : Db) (s : Session)
      → permitted settings.authorization request.user_id ≡ false
      → ((o : InterpretationOutput)
          → x.interpretation request.message ≡ ok o
          → o.response_type ≢ InterpretationResponseType.confirmation)
      → Holds (SameRows before) s
      → Holds (SameRows before) (agent_chat x settings reads request s).1
  agent_chat-SameRows before s stranger not_confirmed h =
      agent_chat-Holds x settings reads request (SameRows before)
        (rw stranger (SameRows-Requests before))
        (λ o is confirms. absurd (not_confirmed o is confirms)) s h
