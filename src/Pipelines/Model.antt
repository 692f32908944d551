-- ===== src/Pipelines/Model.antt =====
-- `DefaultModelPipeline` of src/agent_runtime/pipelines/model.py: the attempts of one model step. What
-- the model streams for an attempt, `iterate_cancellable` included, is a parameter.
pub mod Keeping
pub mod Committing
pub mod Serving
use coresmos.Prelude.{
  ℕ, zero, suc, ◌+◌, ◌==◌, if◌then◌else◌, Bool, true, false, ◌&&◌, not, Option, none, some, List,
  [], ◌∷◌, ◌++◌, Text, codes, decimal,
}
use coresmos.Errors.{
  Error, Result, ok, raise, adapter_error, budget_exhausted_error, completion_protocol_error,
}
use coresmos.Contracts.Messages.{ToolCall}
use coresmos.Contracts.Receipts.{MessageReceipt}
use coresmos.Contracts.Steps.{
  PreparedStep, ModelResult, ModelStepEvent, text_delta, reasoning_delta, model_completed,
  is_effective,
}
use coresmos.Recording.Operations.{record_text_delta, record_text_final}
use coresmos.Loop.Streams.{ManagedEventStream}
use coresmos.Generators.{Generator, ◌>>=◌, ◌>>◌, return, throw, yield, catch}
use coresmos.Pipelines.Session.{RunSession, Control, ask, recording, reserving}

-- An event of the low-level model.
pub data LowEvent : Type 0 where
  text : Text → LowEvent
  reasoning : Text → LowEvent
  completed : ModelResult → LowEvent
  unsupported : LowEvent

-- `f"{run_id}:{step_no}:{target}"`
abbrev pub step_op : PreparedStep → Text
step_op step =
    step.identity.run_id ++ 58 ∷ (decimal step.identity.step_no ++ 58 ∷ step.record_target.value)

-- `_delta_op`
unfoldable pub delta_op : PreparedStep → ℕ → ℕ → Text
delta_op step attempt n =
    step_op step ++ (codes ":a" ++ (decimal attempt ++ (codes ":delta:" ++ decimal n)))

-- `_final_op`
unfoldable pub final_op : PreparedStep → ℕ → Text
final_op step attempt = step_op step ++ (codes ":a" ++ (decimal attempt ++ codes ":final"))

-- The variables of an attempt's loop.
pub record Attempt : Type 0 where
  pub previous : Option MessageReceipt
  pub delta_n : ℕ
  pub pending : Option ModelResult
  pub emitted_output : Bool

abbrev pub new_attempt : Attempt
new_attempt = record { previous = none; delta_n = 0; pending = none; emitted_output = false }

abbrev pub ModelGenerator : Type 0 → Type 0
ModelGenerator A = Generator RunSession ModelStepEvent A

abbrev pub is_pending : Option ModelResult → Bool
is_pending none = false
is_pending (some r) = true

module _ (is_space : ℕ → Bool) (control : Control) (step : PreparedStep) where
  module _ (attempt : ℕ) where
    -- One event of the model.
    unfoldable pub on_event : LowEvent → Attempt → ModelGenerator Attempt
    unfolding delta_op
    on_event (text t) a = do
      receipt ← recording (
          record_text_delta step.identity.run_id step.identity.step_no step.record_target t
            (delta_op step attempt (a.delta_n + 1)) attempt a.previous)
      yield (text_delta step.identity t attempt (some receipt))
      return (record a { previous = some receipt; delta_n = a.delta_n + 1; emitted_output = true })
    on_event (reasoning t) a = do
      yield (reasoning_delta step.identity t attempt)
      return (record a { emitted_output = true })
    on_event (completed r) a =
        if is_effective is_space r
        then return (record a { pending = some (record r { attempt = attempt }) })
        else return (record a { pending = none })
    on_event unsupported a = throw completion_protocol_error

    -- What an exception of the stream does to the attempt: `none` ends it without a result.
    abbrev pub on_failure : Attempt → Error → ModelGenerator (Option Attempt)
    on_failure a adapter_error =
        if a.emitted_output && not step.request.recovery.retry_partial_output
        then throw adapter_error
        else return none
    on_failure a e = throw e

    abbrev pub at_end : Attempt → Option Error → ModelGenerator (Option Attempt)
    at_end a none = return (some a)
    at_end a (some e) = on_failure a e

    -- The loop over the model's events.
    unfoldable pub read_events :
        List LowEvent → Option Error → Attempt → ModelGenerator (Option Attempt)
    unfolding on_event
    read_events [] failure a = at_end a failure
    read_events (e ∷ es) failure a =
        if is_pending a.pending
        then throw completion_protocol_error
        else (on_event e a >>= λ a'. read_events es failure a')

    -- The final text is committed, and the result is given with its receipt.
    unfoldable pub commit_result : ModelResult → Option MessageReceipt → ModelGenerator Bool
    unfolding final_op
    commit_result r previous = do
      receipt ← recording (
          record_text_final step.identity.run_id step.identity.step_no step.record_target r.text
            r.reasoning r.tool_calls (final_op step attempt) attempt previous)
      yield (model_completed step.identity r (some receipt))
      return true

    -- `if pending is None: return`
    abbrev pub commit_pending : Option MessageReceipt → Option ModelResult → ModelGenerator Bool
    commit_pending previous none = return false
    commit_pending previous (some r) = commit_result r previous

    abbrev pub finish_attempt : Option Attempt → ModelGenerator Bool
    finish_attempt none = return false
    finish_attempt (some a) = commit_pending a.previous a.pending

    -- `_run_attempt`, and whether it completed.
    unfoldable pub run_attempt : ManagedEventStream LowEvent → ModelGenerator Bool
    unfolding read_events commit_result
    run_attempt low = read_events low.items low.failure new_attempt >>= λ a. finish_attempt a

  module _ (model : ℕ → ManagedEventStream LowEvent) where
    -- The attempts from one on, with the number that is left. An `AdapterError` that leaves an attempt
    -- is raised again: it emitted output, and may not be retried.
    unfoldable pub attempts_from : ℕ → ℕ → ModelGenerator (Unit {0})
    unfolding run_attempt
    attempts_from zero attempt = throw adapter_error
    attempts_from (suc left) attempt =
        let again = attempts_from left (attempt + 1) in
        ask control
        >> (reserving step.estimated_tokens
            >> (run_attempt attempt (model attempt) >>= λ completed.
                if completed
                then return tt
                else if left == 0
                then throw adapter_error
                else (ask control >> again)))

    -- `_stream`
    unfoldable pub stream : ModelGenerator (Unit {0})
    unfolding attempts_from
    stream =
        if step.request.recovery.remaining_attempts == 0
        then throw budget_exhausted_error
        else attempts_from step.request.recovery.remaining_attempts 1
