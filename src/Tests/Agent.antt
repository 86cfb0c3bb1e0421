-- ===== src/Tests/Agent.antt =====
-- Requests in natural language, with a stub of what is outside.
use personal_deadline_manage.Common.{
  true, ◌≤◌, ◌≡◌, refl, false, Option, none, some, [], ◌∷◌, arith,
}
use personal_deadline_manage.Common.Int.{pos}
use personal_deadline_manage.Model.{Moment, Uuid, Text, known}
use personal_deadline_manage.Store.{ok, open_session}
use personal_deadline_manage.Store.Keeps.{Holds}
use personal_deadline_manage.Guardrails.{ActionType, ActionProposal}
use personal_deadline_manage.Guardrails.Resolver.{resolve, clarification}
use personal_deadline_manage.Parameters.{
  get_or_null, explicit_start, explicit_end, parse_iso_datetime, expression_of, Json, text,
  task_name, deadline, date_range_expression, Parameters, Parsed, aware,
}
use personal_deadline_manage.ActionValidator.{validate}
use personal_deadline_manage.ActionValidator.Accepts.{
  IsComplete, validate-IsComplete, resolve_suggestion,
}
use personal_deadline_manage.AgentInterpreter.{
  InterpretationResponseType, InterpretationOutput, ResponseType, to_agent_response,
}
use personal_deadline_manage.AgentInterpreter.Proposes.{AnsweredBy, to_agent_response-AnsweredBy}
use personal_deadline_manage.TaskModule
use personal_deadline_manage.ActionExecutor.Dispatch.{tasks_in_range}
use personal_deadline_manage.ActionExecutor.Ranges.{tasks_in_range-Ordered}
use personal_deadline_manage.ActionExecutor.Command.{
  ExecutionCommand, ExecutionResult, ExecutionStatus, result,
}
use personal_deadline_manage.ActionExecutor.Execute.{execute, decision_for}
use personal_deadline_manage.ActionExecutor.Unchanged.{LeavesTables, execute-LeavesTables}
use personal_deadline_manage.AgentHandler.Answers.{AgentChatRequest, Settings, Outside, Reads}
use personal_deadline_manage.AgentHandler.Pipeline.{
  agent_chat, narrate, by_proposal, handle_confirmation, run_command,
}
use personal_deadline_manage.AgentHandler.Refuses.{refusal, SameItems, handle_confirmation-refusal}
use personal_deadline_manage.AgentHandler.Narrates.{reply_to, narrate-reply_to}
use personal_deadline_manage.AgentHandler.Delivers.{
  deletion, deleted, handle_confirmation-run_command,
}
use personal_deadline_manage.AgentHandler.Asks.{
  asked, deletion_proposal, deletion-handle_confirmation,
}
use personal_deadline_manage.Model.Time.{plus_seconds}
use personal_deadline_manage.Store.Rows.{row}
use personal_deadline_manage.Store.TaskRepository.{task_id}
use personal_deadline_manage.Store.ConfirmationRepository.{win}
use personal_deadline_manage.AgentHandler.Safety.{
  Retains, SameRows, agent_chat-Retains, agent_chat-SameRows,
}
use personal_deadline_manage.Tests.Data.{tables, tables-WellFormed, command, report}
use personal_deadline_manage.Tests.Deciding.{same_text}

abbrev parse : Text → Parsed
parse t = aware 5000

abbrev new_task : ActionProposal Parameters
new_task = record {
  action_type = ActionType.create_task;
  resource = none;
  parameters = (known task_name, text (97 ∷ [])) ∷ (known deadline, text (98 ∷ [])) ∷ [];
}

validate-IsComplete_example : IsComplete parse new_task
unfolding validate
validate-IsComplete_example = validate-IsComplete parse new_task refl

-- "TODAY"
abbrev suggest_today : ActionProposal Parameters
suggest_today = record {
  action_type = ActionType.suggest_rescheduling;
  resource = none;
  parameters = (known date_range_expression, text (84 ∷ 79 ∷ 68 ∷ 65 ∷ 89 ∷ [])) ∷ [];
}

resolve_suggestion_example :
    resolve same_text suggest_today (open_session tables [])
    ≡ (ok clarification, open_session tables [])
unfolding validate
resolve_suggestion_example =
    resolve_suggestion parse same_text suggest_today (open_session tables []) refl refl

-- The first code point as a UUID.
abbrev parse_uuid : Text → Option Uuid
parse_uuid [] = none
parse_uuid (c ∷ cs) = some c

abbrev delete_first : InterpretationOutput
delete_first = record {
  response_type = InterpretationResponseType.action_proposed;
  action_type = some ActionType.delete_task;
  resource_id = some (1 ∷ []);
  resource_description = none;
  parameters = [];
}

to_agent_response-AnsweredBy_example :
    AnsweredBy parse_uuid delete_first (to_agent_response parse_uuid delete_first)
to_agent_response-AnsweredBy_example = to_agent_response-AnsweredBy parse_uuid delete_first

abbrev delete_command : ExecutionCommand
delete_command = record {
  action_type = ActionType.delete_task;
  resource_id = some 9;
  parameters = [];
}

abbrev driver_text : Json → Option Text
driver_text v = none

execute-LeavesTables_example : LeavesTables tables (
    execute parse driver_text
      (pos 480)
      31
      600
      (decision_for delete_command)
      delete_command
      (open_session tables []))
execute-LeavesTables_example =
    execute-LeavesTables parse driver_text (pos 480) 31 600 (decision_for delete_command)
      delete_command (open_session tables []) tt

abbrev outside : Outside
outside = record {
  fromisoformat = parse;
  parse_uuid = parse_uuid;
  ilike = same_text;
  driver_text = driver_text;
  dump = λ c. 99 ∷ [];
  load = λ t. some delete_command;
  interpretation = λ t. ok delete_first;
  wording = λ r t. ok t;
  synchronized = λ now c. c.status;
}

abbrev settings : Settings
settings = record {
  authorization = record { default_user_id = some 1; single_user_mode = false };
  daily_working_minutes = pos 480;
  pending_confirmation_ttl_seconds = pos 300;
}

abbrev reads : Reads
reads = record { cleanup_at = 600; confirm_at = 610; create_at = 620; execute_at = 630; fresh = 31 }

abbrev request : AgentChatRequest
request = record { message = 100 ∷ []; user_id = some 1 }

tables-Retains : Retains tables tables
tables-Retains = record { tasks = λ k there. there; reminders = λ k there. there }

agent_chat-Retains_example :
    Holds (Retains tables) (agent_chat outside settings reads request (open_session tables [])).1
agent_chat-Retains_example =
    agent_chat-Retains outside settings reads request tables (open_session tables [])
      (λ o is confirms. ground (arith, is, confirms))
      (record { committed = tables-Retains; working = tables-Retains; world = tt })

abbrev anyone : AgentChatRequest
anyone = record request { user_id = none }

-- The stub of JSON gives the deletion of the first task for every text.
abbrev stored : Outside
stored = record outside { load = λ t. some (deletion 1 []) }

abbrev later : Reads
later = record reads { confirm_at = 700; fresh = 32 }

handle_confirmation-run_command_example :
    handle_confirmation stored settings reads anyone (some 21) (open_session tables [])
    ≡ run_command stored settings reads anyone
        (decision_for (deletion 1 []))
        (deletion 1 [])
        (some 21)
        (open_session (win 21 none 610 tables).1 [])
handle_confirmation-run_command_example =
    handle_confirmation-run_command stored settings reads anyone 21 tables command (deletion 1 [])
      (refl, (refl, tt)) refl refl refl (omega arith) refl

-- The command 21 at the time of its expiry.
abbrev too_late : Reads
too_late = record reads { confirm_at = 800 }

handle_confirmation-refusal_example :
    let (r, s) =
      handle_confirmation stored settings too_late anyone (some 21) (open_session tables []) in
    (r ≡ ok (refusal stored settings too_late anyone 21 (some command)))
    × SameItems tables s.committed
handle_confirmation-refusal_example =
    handle_confirmation-refusal stored settings too_late anyone 21 tables
      tables-WellFormed.confirmation_keys (λ pending own. omega arith)

deletion-handle_confirmation_example :
    let asks =
      by_proposal stored settings reads request ResponseType.action_proposed
        (some (deletion_proposal 1 none []))
        (open_session tables []) in
    let answers = handle_confirmation stored settings later request (some 31) asks.1 in
    (asks.0 ≡ ok (asked stored settings reads request))
    × (asks.1.committed.tasks ≡ tables.tasks)
    × (answers.0 ≡ ok (deleted stored settings later request 1 [] 31))
    × (row task_id 1 answers.1.committed.tasks ≡ none)
unfolding plus_seconds
deletion-handle_confirmation_example =
    deletion-handle_confirmation stored settings reads later request request
      ResponseType.action_proposed 1 none [] 300000620 tables report refl refl (refl, (refl, tt))
      (refl, (refl, tt)) refl refl refl (omega arith) refl

abbrev stranger : AgentChatRequest
stranger = record request { user_id = some 2 }

tables-SameRows : SameRows tables tables
tables-SameRows = record { tasks = refl; reminders = refl; confirmations = λ k free. free }

agent_chat-SameRows_example :
    Holds (SameRows tables) (agent_chat outside settings reads stranger (open_session tables [])).1
agent_chat-SameRows_example =
    agent_chat-SameRows outside settings reads stranger tables (open_session tables []) refl
      (λ o is confirms. ground (arith, is, confirms))
      (record { committed = tables-SameRows; working = tables-SameRows; world = tt })

-- "EXPLICIT_RANGE"
abbrev explicit_range : Text
explicit_range = 69 ∷ 88 ∷ 80 ∷ 76 ∷ 73 ∷ 67 ∷ 73 ∷ 84 ∷ 95 ∷ 82 ∷ 65 ∷ 78 ∷ 71 ∷ 69 ∷ []

abbrev analysis_of_range : ActionProposal Parameters
analysis_of_range = record {
  action_type = ActionType.analyze_workload;
  resource = none;
  parameters =
      (known date_range_expression, text explicit_range)
      ∷ (known explicit_start, text [])
      ∷ (known explicit_end, text [])
      ∷ [];
}

tasks_in_range-Ordered_example :
    (start : Moment) × (end : Moment) × (start ≤ end)
    × (parse_iso_datetime parse (get_or_null explicit_start analysis_of_range.parameters)
        ≡ ok start)
    × (parse_iso_datetime parse (get_or_null explicit_end analysis_of_range.parameters) ≡ ok end)
    × (tasks_in_range parse driver_text
          (pos 480)
          31
          600
          analysis_of_range.parameters
          (open_session tables [])
        ≡ TaskModule.find_tasks_by_deadline_range start end (open_session tables []))
unfolding validate expression_of parse_iso_datetime
tasks_in_range-Ordered_example =
    tasks_in_range-Ordered parse driver_text (pos 480) 31 600 analysis_of_range
      (open_session tables []) refl refl refl

abbrev analysed : ExecutionResult
analysed = record (result ExecutionStatus.executed delete_command) {
  action_type = ActionType.analyze_workload;
}

narrate-reply_to_example :
    narrate outside settings reads request analysed (open_session tables [])
    ≡ (ok (reply_to true false (ok (100 ∷ []))), open_session tables [])
narrate-reply_to_example =
    narrate-reply_to outside settings reads request analysed (open_session tables [])
