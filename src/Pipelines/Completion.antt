-- ===== src/Pipelines/Completion.antt =====
-- `DefaultCompletionPipeline` of src/agent_runtime/pipelines/completion.py. The host's policy is a
-- parameter: what it answers for a command and a receipt.
pub mod Committed
pub mod Serving
use coresmos.Prelude.{codes, ◌∷◌, ◌+◌, if◌then◌else◌, Bool, true, false, none, some, []}
use coresmos.Errors.{Error, Result, ok, raise, require, recording_error}
use coresmos.Contracts.Enums.{Flow}
use coresmos.Contracts.Flows.{FlowDecision}
use coresmos.Contracts.Receipts.{MessageReceipt}
use coresmos.Contracts.Steps.{PreparedStep, ModelResult, CompletionCompleted}
use coresmos.Recording.Operations.{record_text_final}
use coresmos.Loop.Streams.{is_cancelled}
use coresmos.Generators.{Generator, ◌>>=◌, ◌>>◌, return, yield, modify, check}
use coresmos.Pipelines.Session.{RunSession, Control, ask, recording}
use coresmos.Pipelines.Model.{final_op}

-- `except Exception as exc: raise RecordingError(...) from exc`; a cancellation is no `Exception`.
abbrev pub failed_commit : Error → Error
failed_commit e = if is_cancelled e then e else recording_error

unfoldable pub as_commit : {A : Type 0} → Result A → Result A
as_commit (raise e) = raise (failed_commit e)
as_commit (ok a) = ok a

-- `decision.flow is Flow.WAIT and (decision.pending_ref is None or not decision.pending_ref.value)`
unfoldable pub has_pending : FlowDecision → Bool
has_pending d = elim d.pending_ref [
  | none ↦ false
  | some p ↦ elim p.value [ [] ↦ false | c ∷ cs ↦ true ]
]

abbrev may_end : Flow → Bool → Bool
may_end Flow.wait pending = pending
may_end _ pending = true

unfoldable pub check_decision : FlowDecision → Result (Unit {0})
unfolding has_pending
check_decision d = require (may_end d.flow (has_pending d)) recording_error

abbrev pub counted_call : RunSession → RunSession
counted_call s = record s { completion_policy_calls = s.completion_policy_calls + 1 }

-- `FinishCompletionPolicy.apply`
unfoldable pub finish_policy : PreparedStep → ModelResult → MessageReceipt → Result FlowDecision
finish_policy step result receipt =
    ok (record { flow = Flow.finish; reason = some (codes "default"); pending_ref = none })

module _ (policy : PreparedStep → ModelResult → MessageReceipt → Result FlowDecision)
    (control : Control) (step : PreparedStep) (result : ModelResult) where
  -- The policy is asked once, behind the commit of the final text.
  unfoldable pub decide : MessageReceipt → Generator RunSession CompletionCompleted (Unit {0})
  unfolding as_commit check_decision
  decide receipt = do
    modify counted_call
    decision ← check (as_commit (policy step result receipt))
    check (check_decision decision)
    yield (record { identity = step.identity; decision = decision; receipt = receipt })

  -- `_complete`
  unfoldable pub complete : Generator RunSession CompletionCompleted (Unit {0})
  unfolding decide final_op
  complete = do
    ask control
    receipt ← recording (
        record_text_final step.identity.run_id step.identity.step_no step.record_target result.text
          result.reasoning result.tool_calls (final_op step result.attempt) result.attempt none)
    decide receipt
