-- ===== src/AgentResponseGenerator.antt =====
-- services/agent_response_generator.py: where the reply comes from; the prompts and the texts of
-- the templates are left out.
use personal_deadline_manage.Common.{
  Bool, true, false, not, Option, none, some, ◌||◌, if◌then◌else◌,
}
use personal_deadline_manage.Model.{Text}
use personal_deadline_manage.Store.{Result, ok, err, Error, generation_error}
use personal_deadline_manage.ActionValidator.{is_analysis}
use personal_deadline_manage.ActionExecutor.Command.{ExecutionResult, Payload}

-- The result's own message, the template for the result, or the language model's text.
pub data Reply : Type 0 where
  own_message template : Reply
  written : Text → Reply

abbrev pub has_payload : Option Payload → Bool
has_payload none = false
has_payload (some p) = true

-- `except LLMGenerationError`
abbrev pub is_generation_error : Error → Bool
is_generation_error generation_error = true
is_generation_error _ = false

abbrev pub after_generation : Result Text → Result Reply
after_generation (ok text) = ok (written text)
after_generation (err e) = if is_generation_error e then ok template else err e

-- `generated` is what the language model gives for the prompt.
unfoldable pub generate_response : Bool → Result Text → ExecutionResult → Result Reply
generate_response enable_llm generated r =
    if not (is_analysis r.action_type)
    then ok own_message
    else if not enable_llm || not (has_payload r.result_payload)
    then ok template
    else after_generation generated
