-- ===== src/Lib.antt =====
-- Personal deadline management agent: a service that keeps tasks with deadlines, reminders of them
-- and commands that wait for the user's confirmation in three tables of a database, a worker that
-- announces due reminders, and analyses that find overloaded days and times to do the tasks in.
-- Paths are those below src/personal_deadline_management_agent of the repository.
--
-- The parts and the files that model them:
-- - Common: shared tests, lists, integers (Int), orders (Order) and Python's stable sort (Sort).
-- - Model: the rows and enums of models.py; Model/Time: datetime arithmetic.
-- - Store: uow.py and repositories/. Transaction has the unit of work: an action takes a session,
--   with the committed tables, the tables that its statements see and a list of events, and gives
--   a result or an error with the next session. TaskRepository, ReminderRepository and
--   ConfirmationRepository have one function for each method. Rows and Queries are the lemmas on
--   tables, Keeps the rules for invariants, Atomic those for transactions, Returns those for
--   results, WellFormed the keys of the tables, Deletes the cascades, Claims the race of workers.
-- - TaskService, ReminderService: services/task_service.py, services/reminder_service.py, with the
--   exceptions of exceptions/ as errors. TaskModule, ReminderModule: modules/task_module.py and
--   modules/reminder_module.py, where each use case that writes is one transaction.
-- - SchedulerService, SchedulerModule: services/scheduler_service.py, modules/scheduler_module.py
--   and `run_once` of scheduler.py: find the due reminders, claim each by a conditional UPDATE,
--   announce those that were won, commit.
-- - Worker: `run_forever` of scheduler.py, where a list of rounds says what happens in each tick and
--   when a signal arrives; a loop whose list is at its end is still running. Config: config.py.
-- - TaskHandler: schemas/task.py, handlers/task_handler.py and the status codes of main.py;
--   ReminderHandler: schemas/reminder.py and handlers/reminder_handler.py.
-- - PendingConfirmationModule: modules/pending_confirmation_module.py: a command is stored as
--   PENDING, and confirmed once by a conditional UPDATE before it expires.
-- - Workload: schemas/workload.py and the loops that group tasks. WorkloadAnalysisService:
--   services/workload_analysis_service.py. ReschedulingConstraintService,
--   ReschedulingCandidateService and ReschedulingSuggestionService: the services of these names.
-- - Guardrails: actions and proposals of schemas/agent.py. Guardrails/Decision:
--   services/authorization_service.py, guardrails/safety_policy.py and
--   guardrails/decision_service.py. Guardrails/Resolver: services/resource_resolver.py.
-- - DateRange: services/date_range_resolver.py, over Model/Calendar, the proleptic Gregorian calendar
--   of Python's dates. Parameters: the dictionary of an action's parameters, as JSON values, and
--   utils/datetime_utils.py; Parameters/Values: these values as columns of the tables.
-- - ActionValidator: services/action_validator.py. AgentInterpreter: services/agent_interpreter.py
--   from the language model's output on. ActionExecutor: services/execution_command.py and
--   services/execution_result.py (Command), and services/action_executor.py: Dispatch and Changes
--   have one function for each action, Execute the guards and the results. AgentResponseGenerator:
--   services/agent_response_generator.py.
-- - LanguageModel: adapters/structured_generation.py. Health: handlers/health.py.
-- - AgentHandler: schemas/agent_chat.py (Answers) and handlers/agent_handler.py (Pipeline): a request
--   is interpreted, validated, resolved, decided on and executed or stored, or it confirms a stored
--   command, all in one session, which is closed after the answer.
-- - Tests: the theorems at concrete tables and tasks.
--
-- How the code is modelled. A UUID is its number, a text its code points, and a datetime the
-- number of microseconds in UTC since the year 1, whose date is its day; a datetime outside of the
-- years 1 to 9999 is an OverflowError. The time that a call reads and the UUID of a new row are
-- arguments. An event of the session says of the next statement that nothing happens, that the
-- database fails, or that another transaction commits first. A query sees
-- the current tables. Of the ORM's identity map one object is modelled, the confirmation that a
-- request has loaded and still holds when it confirms it: `Session.get` gives that object and not
-- the row, with a status that is a parameter; elsewhere a row is read again. An update sends the columns that were assigned, and
-- sets `updated_at` only if one has changed; a rollback does not fail. The notification provider,
-- the database's ILIKE, the language model's answers, the parsers of datetimes and UUIDs,
-- pydantic's JSON of a command and what the driver stores for a value that is no text are
-- parameters. JSON has no booleans and no fractions here. An action's name of a column, text or
-- status is compared as a list of code points. Log lines, message texts and the float percentage
-- of a day's pressure are left out; quotients of durations are exact. Every loop is a recursion on
-- the list or the number of slices that it goes through, so no fuel is needed.
--
-- Not modelled: reading the environment and pydantic's reading of a body by its types, the
-- conversation with the language model, prompts and templates, wiring, logging, and the migrations.
pub mod Common
pub mod Model
pub mod Store
pub mod TaskService
pub mod TaskModule
pub mod TaskHandler
pub mod ReminderService
pub mod ReminderHandler
pub mod ReminderModule
pub mod SchedulerService
pub mod SchedulerModule
pub mod Config
pub mod Worker
pub mod PendingConfirmationModule
pub mod Workload
pub mod WorkloadAnalysisService
pub mod ReschedulingConstraintService
pub mod ReschedulingCandidateService
pub mod ReschedulingSuggestionService
pub mod Guardrails
pub mod DateRange
pub mod Parameters
pub mod ActionValidator
pub mod AgentInterpreter
pub mod ActionExecutor
pub mod LanguageModel
pub mod Health
pub mod AgentResponseGenerator
pub mod AgentHandler
mod Tests
