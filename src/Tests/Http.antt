-- ===== src/Tests/Http.antt =====
-- A PATCH of a task, and the worker's loop.
use personal_deadline_manage.Common.{◌≡◌, refl, none, some, [], ◌∷◌, ◌++◌, arith, inl, inr}
use personal_deadline_manage.Common.Int.{pos}
use personal_deadline_manage.Model.{Task, TaskStatus}
use personal_deadline_manage.Store.{open_session, calm}
use personal_deadline_manage.Store.Rows.{row}
use personal_deadline_manage.Store.TaskRepository.{task_id}
use personal_deadline_manage.TaskService.{unset, given}
use personal_deadline_manage.Parameters.{null, aware}
use personal_deadline_manage.TaskHandler.{
  TaskUpdateRequest, update_task, deadline_must_be_aware, description_must_be_str_or_none,
  update_duration_must_be_positive_or_none,
}
use personal_deadline_manage.TaskHandler.Patches.{Patched, update_task-Patched}
use personal_deadline_manage.Worker.{Round, never, during_sleep, run_forever}
use personal_deadline_manage.Worker.Stops.{stopped, after_ticks, run_forever-stops}
use personal_deadline_manage.ReschedulingSuggestionService.{suggest_for_rows, standing}
use personal_deadline_manage.ReschedulingCandidateService.{deduplicate}
use personal_deadline_manage.ReschedulingSuggestionService.Unscheduled.{
  Refused, suggest_for_rows-Refused,
}
use personal_deadline_manage.Tests.Data.{tables, report, send_first}

-- A new deadline, and a duration that is cleared.
abbrev postpone : TaskUpdateRequest
postpone = record {
  task_name = unset;
  description = unset;
  deadline = given (some (aware 5000));
  priority = unset;
  status = given (some TaskStatus.in_progress);
  duration_minutes = given null;
}

update_task-Patched_example :
    (new : Task) × ((update_task 600 1 postpone (open_session tables [])).0
      ≡ record { status_code = 200; data_given = some new })
    × (row task_id 1 (update_task 600 1 postpone (open_session tables [])).1.committed.tasks
        ≡ some new)
    × Patched postpone report new
unfolding deadline_must_be_aware description_must_be_str_or_none
    update_duration_must_be_positive_or_none
update_task-Patched_example =
    update_task-Patched 600 postpone (some 5000) unset (given none) 1 tables report refl refl refl
      refl refl

abbrev quiet_round : Round
quiet_round = record { now = 600; world = calm ∷ []; signal = never }

abbrev last_round : Round
last_round = record quiet_round { now = 700; signal = during_sleep 3 }

run_forever-stops_example :
    run_forever send_first 60 100 ((quiet_round ∷ []) ++ last_round ∷ quiet_round ∷ []) tables
    ≡ stopped (after_ticks send_first 60 100 ((quiet_round ∷ []) ++ last_round ∷ []) tables) 2 124
run_forever-stops_example =
    run_forever-stops send_first 60 100 (quiet_round ∷ []) last_round (quiet_round ∷ []) tables
      (refl, tt) (λ e. ground (arith, e))

-- Nobody knows how long the essay takes.
abbrev unknown_length : Task
unknown_length = record report { id = 3; duration_minutes = none }

suggest_for_rows-Refused_example :
    Refused (suggest_for_rows (pos 480) (pos 480) (report ∷ unknown_length ∷ []))
unfolding deduplicate
suggest_for_rows-Refused_example =
    suggest_for_rows-Refused (standing unknown_length) refl refl (pos 480) (pos 480)
      (report ∷ unknown_length ∷ []) (inr (inl refl))
