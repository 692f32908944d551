-- ===== src/Pipelines/Completion/Committed.antt =====
-- The final text that the model phase committed is committed again by the completion phase.
use coresmos.Prelude.{◌+◌, ◌≡◌, refl, true, Option, none, [], ◌∷◌}
use coresmos.Errors.{Result, ok, raise}
use coresmos.Contracts.Flows.{FlowDecision}
use coresmos.Contracts.Receipts.{MessageReceipt}
use coresmos.Contracts.Steps.{PreparedStep, ModelResult}
use coresmos.Recording.Payloads.{Payload, payload_eq}
use coresmos.Recording.Store.{MemoryTranscript}
use coresmos.Recording.Operations.{record_text_final}
use coresmos.Recording.Facts.{IsValid, Ends, raised, returned}
use coresmos.Recording.Again.{not_created}
use coresmos.Recording.Forgetting.{record_text_final-forgetting}
use coresmos.Loop.Allocation.{raise_if_stopped}
use coresmos.Generators.{◌>>=◌, return, yield, call, check, modify}
use coresmos.Pipelines.Session.{RunSession, Control, ask, recording}
use coresmos.Pipelines.Model.{final_op}
use coresmos.Pipelines.Completion.{as_commit, check_decision, decide, complete}

abbrev OnReturn :
    (MessageReceipt → MemoryTranscript → Type 0) → Result MessageReceipt × MemoryTranscript → Type 0
OnReturn Q (raise e, s) = Unit {0}
OnReturn Q (ok a, s) = Q a s

Ends-OnReturn :
    {E : MemoryTranscript → Type 0} {Q : MessageReceipt → MemoryTranscript → Type 0}
    {r : Result MessageReceipt × MemoryTranscript}
    → Ends E Q r
    → OnReturn Q r
Ends-OnReturn (raised e s h) = tt
Ends-OnReturn (returned a s h) = h

module _ (policy : PreparedStep → ModelResult → MessageReceipt → Result FlowDecision)
    (control : Control) (step : PreparedStep) (result : ModelResult) where
  -- What the model phase and the completion phase record.
  abbrev pub record_final :
      Option MessageReceipt → MemoryTranscript → Result MessageReceipt × MemoryTranscript
  record_final previous =
      record_text_final step.identity.run_id step.identity.step_no step.record_target result.text
        result.reasoning result.tool_calls (final_op step result.attempt) result.attempt previous

  -- The session behind a completion that wrote nothing.
  abbrev pub asked_policy : RunSession → RunSession
  asked_policy s = record s {
    asked = s.asked + 1;
    completion_policy_calls = s.completion_policy_calls + 1;
  }

  complete_from :
      (s : RunSession) (receipt : MessageReceipt) (d : FlowDecision)
      → record_final none s.transcript ≡ (ok receipt, s.transcript)
      → control s.asked ≡ none
      → policy step result receipt ≡ ok d
      → check_decision d ≡ ok tt
      → complete policy control step result s ≡ (
        record { identity = step.identity; decision = d; receipt = receipt } ∷ [],
        ok tt,
        asked_policy s,
      )
  unfolding complete decide ask recording ◌>>=◌ call check modify yield return as_commit
      raise_if_stopped
  complete_from s receipt d again runs decides holds = rw (runs, again, decides, holds) refl

  -- When the model phase committed the final text of a result, with or without the receipt of a last
  -- delta, in a valid transcript, and its payload equals itself, then the completion phase, if it is
  -- not stopped and the policy decides, writes nothing: it yields the decision with the receipt of
  -- the model phase, `created` false, and asks the policy once.
  pub complete-committed :
      (previous : Option MessageReceipt) (before : MemoryTranscript) (receipt : MessageReceipt)
      (s : RunSession) (d : FlowDecision)
      → IsValid before
      → payload_eq
          (Payload.text_final result.text result.reasoning result.tool_calls result.attempt)
          (Payload.text_final result.text result.reasoning result.tool_calls result.attempt)
        ≡ true
      → record_final previous before ≡ (ok receipt, s.transcript)
      → control s.asked ≡ none
      → policy step result (not_created receipt) ≡ ok d
      → check_decision d ≡ ok tt
      → complete policy control step result s ≡ (
        record { identity = step.identity; decision = d; receipt = not_created receipt } ∷ [],
        ok tt,
        asked_policy s,
      )
  complete-committed previous before receipt s d v equal done runs decides holds =
      complete_from s (not_created receipt) d
        (rw done at (
          Ends-OnReturn (
            record_text_final-forgetting step.identity.run_id step.identity.step_no
              step.record_target result.text result.reasoning result.tool_calls
              (final_op step result.attempt) result.attempt previous before v equal)))
        runs decides holds
