-- ===== src/Pipelines/Phases.antt =====
-- The completion phase behind the model phase of a step, in src/agent_runtime/pipelines.
use coresmos.Prelude.{
  ℕ, ◌≡◌, refl, sym, ap, ◌∙◌, Bool, true, Option, none, some, List, [], ◌∷◌, ◌++◌,
}
use coresmos.Errors.{Result, ok}
use coresmos.Contracts.Flows.{FlowDecision}
use coresmos.Contracts.Receipts.{MessageReceipt}
use coresmos.Contracts.Steps.{PreparedStep, ModelResult, ModelStepEvent, model_completed}
use coresmos.Recording.Payloads.{Payload, payload_eq}
use coresmos.Recording.Facts.{IsValid}
use coresmos.Recording.Again.{not_created}
use coresmos.Loop.Streams.{ManagedEventStream}
use coresmos.Generators.Reaching.{Reached-ok}
use coresmos.Pipelines.Session.{RunSession, Control}
use coresmos.Pipelines.Model.{LowEvent, stream}
use coresmos.Pipelines.Completion.{check_decision, complete}
use coresmos.Pipelines.Completion.Committed.{asked_policy, complete-committed}
use coresmos.Pipelines.Model.Committing.{IsCommitted, stream-IsCommitted}

abbrev last_event : List ModelStepEvent → Option ModelStepEvent
last_event [] = none
last_event (e ∷ []) = some e
last_event (e ∷ f ∷ es) = last_event (f ∷ es)

last_event-append :
    (es : List ModelStepEvent) (e : ModelStepEvent) → last_event (es ++ e ∷ []) ≡ some e
last_event-append [] e = refl
last_event-append (f ∷ []) e = refl
last_event-append (f ∷ g ∷ es) e = last_event-append (g ∷ es) e

module _ (is_space : ℕ → Bool) (control : Control) (step : PreparedStep)
    (model : ℕ → ManagedEventStream LowEvent) where
  same_completion :
      (earlier : List ModelStepEvent) (result : ModelResult) (receipt : MessageReceipt)
      (s : RunSession)
      (c : IsCommitted is_space control step
        (earlier ++ model_completed step.identity result (some receipt) ∷ [])
        s)
      → (c.result ≡ result) × (c.receipt ≡ receipt)
  same_completion earlier result receipt s c = (cc same, cc same)
    where
      same :
          some (model_completed step.identity c.result (some c.receipt))
          ≡ some (model_completed step.identity result (some receipt))
      same =
          sym (last_event-append c.earlier _)
          ∙ (ap last_event (sym c.ends_with) ∙ last_event-append earlier _)

  -- When the model step of a run with a valid transcript returned, and its last event completes it
  -- with a result, then the completion phase finds the final text of that result committed: if the
  -- payload equals itself, the run is not stopped, and the policy decides, it writes nothing, yields
  -- the decision with the receipt of the model step, `created` false, and asks the policy once.
  pub stream-then-complete :
      (policy : PreparedStep → ModelResult → MessageReceipt → Result FlowDecision)
      (earlier : List ModelStepEvent) (result : ModelResult) (receipt : MessageReceipt)
      (d : FlowDecision) (s s' : RunSession)
      → IsValid s.transcript
      → stream is_space control step model s
        ≡ (earlier ++ model_completed step.identity result (some receipt) ∷ [], ok tt, s')
      → payload_eq
          (Payload.text_final result.text result.reasoning result.tool_calls result.attempt)
          (Payload.text_final result.text result.reasoning result.tool_calls result.attempt)
        ≡ true
      → control s'.asked ≡ none
      → policy step result (not_created receipt) ≡ ok d
      → check_decision d ≡ ok tt
      → complete policy control step result s' ≡ (
        record { identity = step.identity; decision = d; receipt = not_created receipt } ∷ [],
        ok tt,
        asked_policy policy control step result s',
      )
  stream-then-complete policy earlier result receipt d s s' v returned equal runs decides holds =
      let c = Reached-ok (rw returned at (stream-IsCommitted is_space control step model s v)) in
      let (same_result, same_receipt) = same_completion earlier result receipt s' c in
      complete-committed policy control step result c.previous c.before receipt s' d c.valid equal
        (rw (same_result, same_receipt) at c.recorded) runs decides holds
