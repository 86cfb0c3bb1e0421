-- ===== src/AgentHandler/Narrates.antt =====
-- The wording of a result cannot fail the request.
use personal_deadline_manage.Common.{◌≡◌, refl, Bool, true, false, arith, Bool-cases, inl, inr}
use personal_deadline_manage.Model.{Text}
use personal_deadline_manage.Store.{Result, ok, err, Session}
use personal_deadline_manage.Guardrails.{ActionType}
use personal_deadline_manage.LanguageModel.{generate}
use personal_deadline_manage.ActionValidator.{is_analysis}
use personal_deadline_manage.AgentResponseGenerator.{
  Reply, own_message, template, written, after_generation, generate_response, has_payload,
}
use personal_deadline_manage.ActionExecutor.Command.{ExecutionResult, ExecutionStatus}
use personal_deadline_manage.AgentHandler.Answers.{
  AgentChatRequest, Settings, Outside, Reads, is_narrated,
}
use personal_deadline_manage.AgentHandler.Pipeline.{narrate}

-- The reply to a result that is generated: the model's text, or the template where it fails.
abbrev pub wording_or_template : Result Text → Reply
wording_or_template (ok t) = written t
wording_or_template (err e) = template

abbrev pub reply_to : Bool → Bool → Result Text → Reply
reply_to false paid wording = own_message
reply_to true false wording = template
reply_to true true wording = wording_or_template wording

after_generation-generate :
    (wording : Result Text) → after_generation (generate wording) ≡ ok (wording_or_template wording)
unfolding generate
after_generation-generate (ok t) = refl
after_generation-generate (err e) = refl

is_narrated-is_analysis :
    (status : ExecutionStatus) (action : ActionType)
    → is_narrated status action ≡ true
    → is_analysis action ≡ true
is_narrated-is_analysis ExecutionStatus.not_executable action h = absurd (ground arith)
is_narrated-is_analysis ExecutionStatus.execution_failed action h = absurd (ground arith)
is_narrated-is_analysis ExecutionStatus.executed ActionType.create_task h = absurd (ground arith)
is_narrated-is_analysis ExecutionStatus.executed ActionType.update_task h = absurd (ground arith)
is_narrated-is_analysis ExecutionStatus.executed ActionType.delete_task h = absurd (ground arith)
is_narrated-is_analysis ExecutionStatus.executed ActionType.create_reminder h =
    absurd (ground arith)
is_narrated-is_analysis ExecutionStatus.executed ActionType.update_reminder h =
    absurd (ground arith)
is_narrated-is_analysis ExecutionStatus.executed ActionType.delete_reminder h =
    absurd (ground arith)
is_narrated-is_analysis ExecutionStatus.executed ActionType.analyze_workload h = refl
is_narrated-is_analysis ExecutionStatus.executed ActionType.suggest_rescheduling h =
    absurd (ground arith)

generated :
    (r : ExecutionResult) (wording : Result Text)
    → is_analysis r.action_type ≡ true
    → generate_response true (generate wording) r
      ≡ ok (reply_to true (has_payload r.result_payload) wording)
unfolding generate_response
generated r wording analysis = elim (Bool-cases (has_payload r.result_payload)) [
  | inl paid ↦ rw (analysis, paid) (after_generation-generate wording)
  | inr empty ↦ rw (analysis, empty) refl
]

module _ (x : Outside) (settings : Settings) (reads : Reads) (request : AgentChatRequest) where
  -- Wording a result neither raises nor touches the session: the reply is the model's text for an
  -- executed analysis of the workload, the template where the model fails in any way or the result
  -- carries no analysis, and the result's own message for any other result.
  pub narrate-reply_to :
      (r : ExecutionResult) (s : Session)
      → narrate x settings reads request r s ≡ (
        ok (
            reply_to
              (is_narrated r.status r.action_type)
              (has_payload r.result_payload)
              (x.wording r request.message)),
        s,
      )
  unfolding narrate
  narrate-reply_to r s = elim (Bool-cases (is_narrated r.status r.action_type)) [
    | inl said ↦
        rw
          (
            said,
            generated r (x.wording r request.message)
                (is_narrated-is_analysis r.status r.action_type said),
          )
          refl
    | inr silent ↦ rw silent refl
  ]
