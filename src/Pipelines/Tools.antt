-- ===== src/Pipelines/Tools.antt =====
-- `DefaultToolPipeline` of src/agent_runtime/pipelines/tools.py: one batch of tool calls. The check of a
-- call against its JSON Schema, the host's tools and its result policy are parameters. The
-- registry of bindings is the one that the session's capabilities publish in: the runner gives the
-- same to both.
pub mod Outcomes
pub mod Untouched
pub mod Committing
pub mod Serving
pub mod Answers
pub mod Checks
use coresmos.Prelude.{
  ℕ, zero, suc, ◌+◌, if◌then◌else◌, Bool, true, false, Option, none, some, List, [], ◌∷◌, ◌++◌, map,
  Text, codes, decimal,
}
use coresmos.Json.{Fields}
use coresmos.Errors.{
  Error, Result, ok, raise, capability_error, schema_validation_error, cancelled_run_error,
}
use coresmos.Contracts.Enums.{StopReason}
use coresmos.Contracts.Messages.{ToolSpec, ToolCall, ToolResult}
use coresmos.Contracts.Receipts.{BatchReceipt}
use coresmos.Contracts.Flows.{FlowDecision}
use coresmos.Contracts.Capabilities.{CapabilitySnapshot, find_tool}
use coresmos.Contracts.Steps.{
  StepIdentity, ExternalWorkRef, ToolBatchEvent, tool_calls_recorded, tool_progress,
  external_work_declared, tool_result, tool_batch_completed, ToolBatchCommand,
}
use coresmos.Capabilities.Bindings.{BindingRegistry, resolve}
use coresmos.Recording.Batches.{record_tool_calls, record_tool_results}
use coresmos.Generators.{Generator, ◌>>=◌, ◌>>◌, return, throw, yield, call, check, modify, catch}
use coresmos.Pipelines.Session.{RunSession, Control, ask, recording}
use coresmos.Pipelines.Completion.{failed_commit}
use coresmos.Pipelines.Tools.Outcomes.{InvocationOutcome, visible}

-- What a tool reports while its call runs.
pub data Report : Type 0 where
  declare : ExternalWorkRef → Report
  progress : Fields → Report

-- How the wait for a call ended: the call ended, or a stop came first.
pub data Waited : Type 0 where
  ended : Result InvocationOutcome → Waited
  stopped : Waited

-- A call as the pipeline sees it: what is reported before the wait ended, how it ended, and the work
-- that is declared after a stop, while the call is cancelled.
pub record Invoked : Type 0 where
  pub reports : List Report
  pub waited : Waited
  pub late : List ExternalWorkRef

abbrev pub ToolGenerator : Type 0 → Type 0
ToolGenerator A = Generator RunSession ToolBatchEvent A

-- `f"{run_id}:{step_no}:{record_target.value}"`
abbrev pub batch_op : ToolBatchCommand → Text
batch_op command =
    command.identity.run_id
    ++ 58 ∷ (decimal command.identity.step_no ++ 58 ∷ command.record_target.value)

abbrev pub declared : ExternalWorkRef → RunSession → RunSession
declared work s = record s { external_work = s.external_work ++ work ∷ [] }

abbrev stop_or_cancel : Option StopReason → StopReason
stop_or_cancel none = StopReason.host_cancel
stop_or_cancel (some r) = r

module _ (validate_tool_call : ToolSpec → ToolCall → Result (Unit {0})) where
  -- The checks of one call.
  unfoldable pub validate_call : CapabilitySnapshot → BindingRegistry → ToolCall → Result (Unit {0})
  unfolding find_tool resolve
  validate_call snapshot bindings c = elim (find_tool c.name snapshot.tools) [
    | none ↦ raise capability_error
    | some spec ↦ elim (validate_tool_call spec c) [
      | raise e ↦ raise e
      | ok _ ↦ elim (resolve bindings snapshot.binding_ref c.name) [
        | raise e ↦ raise e
        | ok key ↦ ok tt
      ]
    ]
  ]

  unfoldable pub validate_calls :
      CapabilitySnapshot → BindingRegistry → List ToolCall → Result (Unit {0})
  unfolding validate_call
  validate_calls snapshot bindings [] = ok tt
  validate_calls snapshot bindings (c ∷ cs) = elim (validate_call snapshot bindings c) [
    | raise e ↦ raise e
    | ok _ ↦ validate_calls snapshot bindings cs
  ]

  abbrev pub validate_some :
      CapabilitySnapshot → BindingRegistry → List ToolCall → Result (Unit {0})
  validate_some snapshot bindings [] = raise schema_validation_error
  validate_some snapshot bindings (c ∷ cs) = validate_calls snapshot bindings (c ∷ cs)

  -- `_validate_batch`
  unfoldable pub validate_batch : ToolBatchCommand → BindingRegistry → Result (Unit {0})
  unfolding validate_calls
  validate_batch command bindings = validate_some command.capabilities bindings command.calls

  module _ (control : Control) (invoke : ℕ → ToolCall → Invoked)
      (policy : List InvocationOutcome → RunSession → Result FlowDecision × RunSession)
      (command : ToolBatchCommand) where
    -- `declare` and `progress`, and the event that is forwarded.
    unfoldable pub report : ToolCall → Report → ToolGenerator (Unit {0})
    report c (declare work) = do
      modify (declared work)
      yield (external_work_declared command.identity work)
    report c (progress payload) = yield (tool_progress command.identity c.call_id payload)

    unfoldable pub report_all : ToolCall → List Report → ToolGenerator (Unit {0})
    unfolding report
    report_all c [] = return tt
    report_all c (r ∷ rs) = report c r >> report_all c rs

    abbrev pub declare_all : List ExternalWorkRef → ToolGenerator (Unit {0})
    declare_all [] = return tt
    declare_all (w ∷ ws) = modify (declared w) >> declare_all ws

    -- `CancelledRunError((control.first_reason or HOST_CANCEL).value)`
    unfoldable pub raise_stopped : ToolGenerator InvocationOutcome
    raise_stopped = call (λ s. (raise (cancelled_run_error (stop_or_cancel (control s.asked))), s))

    abbrev pub after_wait : Waited → List ExternalWorkRef → ToolGenerator InvocationOutcome
    after_wait (ended r) late = check r
    after_wait stopped late = declare_all late >> raise_stopped

    -- `_invoke`
    unfoldable pub invoke_call : ToolCall → Invoked → ToolGenerator InvocationOutcome
    unfolding report_all raise_stopped
    invoke_call c i = report_all c i.reports >> after_wait i.waited i.late

    -- The loop over the calls, from a position on: each is asked for a stop, run, and answered.
    unfoldable pub invoke_all : ℕ → List ToolCall → ToolGenerator (List InvocationOutcome)
    unfolding invoke_call visible
    invoke_all n [] = return []
    invoke_all n (c ∷ cs) = do
      ask control
      outcome ← invoke_call c (invoke n c)
      yield (tool_result command.identity (visible outcome).result)
      outcomes ← invoke_all (n + 1) cs
      return (visible outcome ∷ outcomes)

    abbrev pub results_of : List InvocationOutcome → List ToolResult
    results_of outcomes = map (λ (o : InvocationOutcome). o.result) outcomes

    -- `if receipt.recording_required: ...`
    unfoldable pub record_results : BatchReceipt → List InvocationOutcome → ToolGenerator (Unit {0})
    record_results receipt outcomes =
        if receipt.recording_required
        then (recording (
              record_tool_results command.identity.run_id command.identity.step_no
                command.record_target (results_of outcomes)
                (batch_op command ++ codes ":tool_results") receipt)
            >>= λ receipts. return tt)
        else return tt

    -- What follows the commit of the calls.
    unfoldable pub run_calls : BatchReceipt → ToolGenerator (Unit {0})
    unfolding invoke_all record_results
    run_calls receipt = do
      yield (tool_calls_recorded command.identity receipt)
      outcomes ← invoke_all 0 command.calls
      record_results receipt outcomes
      decision ← catch (call (policy outcomes)) (λ e. throw (failed_commit e))
      yield (tool_batch_completed command.identity decision (results_of outcomes) receipt)

    abbrev validated : ToolGenerator (Unit {0})
    validated = call (λ s. (validate_batch command s.capabilities.1, s))

    abbrev record_calls : ToolGenerator BatchReceipt
    record_calls = recording (
        record_tool_calls command.identity.run_id command.identity.step_no command.record_target
          command.calls command.assistant_text command.reasoning
          (batch_op command ++ codes ":tool_calls") command.previous_receipt command.attempt)

    -- `_execute`
    unfoldable pub execute : ToolGenerator (Unit {0})
    unfolding validate_batch run_calls
    execute = do ask control; validated; receipt ← record_calls; run_calls receipt
