-- ===== src/Loop/Turns.antt =====
-- `AgentLoop.run` of src/agent_runtime/core.py, from an entry on. What it yields is a list. The ports
-- are functions: a port is asked at most once for a step, so what it answers may depend on all that
-- went before.
use coresmos.Prelude.{
  ℕ, zero, suc, Bool, true, false, if◌then◌else◌, Option, none, some, List, [], ◌∷◌, ◌++◌, Text,
}
use coresmos.Errors.{Result, ok, raise, protocol_error, completion_protocol_error}
use coresmos.Contracts.Enums.{Flow, StopReason}
use coresmos.Contracts.Messages.{ToolCall}
use coresmos.Contracts.Receipts.{BatchReceipt}
use coresmos.Contracts.Flows.{FlowDecision, PendingRef, ExecutionLimits}
use coresmos.Context.Budget.Ledger.{ExecutionBudgetLedger}
use coresmos.Contracts.Steps.{PreparedStep, ModelResult, ToolBatchCommand}
use coresmos.Loop.Streams.{ManagedEventStream, iterate_strict}
use coresmos.Loop.Allocation.{StepIdentity, Counters, allocate}

pub data Phase : Type 0 where
  model tools completion : Phase

-- The events that the loop reads or makes; all others are a `progress`.
pub data RuntimeEvent (X : Type 0) : Type 0 where
  progress : X → RuntimeEvent X
  step_started : StepIdentity → Phase → RuntimeEvent X
  model_completed : ModelResult → RuntimeEvent X
  tool_batch_completed : FlowDecision → RuntimeEvent X
  completion_completed : FlowDecision → RuntimeEvent X
  run_waiting : Text → PendingRef → FlowDecision → RuntimeEvent X

abbrev pub as_model_completed : {X : Type 0} → RuntimeEvent X → Option ModelResult
as_model_completed (model_completed r) = some r
as_model_completed _ = none

abbrev pub as_tool_batch_completed : {X : Type 0} → RuntimeEvent X → Option FlowDecision
as_tool_batch_completed (tool_batch_completed d) = some d
as_tool_batch_completed _ = none

abbrev pub as_completion_completed : {X : Type 0} → RuntimeEvent X → Option FlowDecision
as_completion_completed (completion_completed d) = some d
as_completion_completed _ = none

-- The ports, and what the run's control and ledger say when a step is allocated.
pub record ExecutionPorts (X : Type 0) : Type 0 where
  pub stop : Counters → Option StopReason
  pub budget : Counters → ExecutionBudgetLedger
  pub prepare : StepIdentity → Result PreparedStep
  pub stream : PreparedStep → ManagedEventStream (RuntimeEvent X)
  pub execute : ToolBatchCommand → ManagedEventStream (RuntimeEvent X)
  pub complete : PreparedStep → ModelResult → ManagedEventStream (RuntimeEvent X)

pub record ToolBatchEntry : Type 0 where
  pub calls : List ToolCall
  pub assistant_text : Option Text
  pub reasoning : Option Text
  pub previous_receipt : Option BatchReceipt
  pub continue_after : Bool

pub data ExecutionEntry : Type 0 where
  model : ExecutionEntry
  tool_batch : ToolBatchEntry → ExecutionEntry
  completed : ExecutionEntry

-- What the loop does after a decision.
pub data Next : Type 0 where
  go_on leave : Next

-- A part of the generator: what it yields, and how it ends.
abbrev pub Yielding : Type 0 → Type 0 → Type 0
Yielding X A = List (RuntimeEvent X) × Result A

abbrev pub is_found {ℓ} : {A : Type ℓ} → Option A → Bool
is_found none = false
is_found (some a) = true

unfoldable pub last_found : {E D : Type 0} → (E → Option D) → List E → Option D
last_found find [] = none
last_found find (e ∷ es) = elim (last_found find es) [ some d ↦ some d | none ↦ find e ]

abbrev pub found_or_raise : {D : Type 0} → Option D → Result D
found_or_raise none = raise completion_protocol_error
found_or_raise (some d) = ok d

-- `_require_pending`
unfoldable pub require_pending : FlowDecision → Result PendingRef
require_pending d = elim d.pending_ref [
  | none ↦ raise protocol_error
  | some p ↦ elim p.value [ [] ↦ raise protocol_error | c ∷ cs ↦ ok p ]
]

module _ {X : Type 0} where
  -- `yield` of what came, and then the rest of the generator.
  abbrev pub then_yield : {A B : Type 0} → Yielding X A → (A → Yielding X B) → Yielding X B
  then_yield (events, raise e) rest = (events, raise e)
  then_yield (events, ok a) rest = (events ++ (rest a).0, (rest a).1)

  abbrev pub yield_event : RuntimeEvent X → Yielding X (Unit {0})
  yield_event event = (event ∷ [], ok tt)

  -- `async for event in iterate_strict(stream, ...): yield event`, and the completion that came.
  unfoldable pub read_phase :
      {D : Type 0}
      → (RuntimeEvent X → Option D)
      → ManagedEventStream (RuntimeEvent X)
      → Yielding X D
  unfolding last_found
  read_phase find stream =
      let (events, end) = iterate_strict (λ e. is_found (find e)) stream in
      then_yield (events, end) (λ _. ([], found_or_raise (last_found find events)))

  unfoldable pub after_decision : Text → FlowDecision → Yielding X Next
  unfolding require_pending
  after_decision run_id d = elim d.flow [
    | Flow.continue ↦ ([], ok go_on)
    | Flow.wait ↦ then_yield ([], require_pending d) (λ p. (run_waiting run_id p d ∷ [], ok leave))
    | Flow.finish ↦ ([], ok leave)
  ]

module _ {X : Type 0} (run_id : Text) (limits : ExecutionLimits) (ports : ExecutionPorts X) where
  -- The phase behind the model's: the tools that it called, or the completion.
  unfoldable pub second_phase : StepIdentity → PreparedStep → ModelResult → Yielding X FlowDecision
  unfolding read_phase
  second_phase i step result = elim result.tool_calls [
    | [] ↦
        then_yield (yield_event (step_started i Phase.completion))
          (λ _. read_phase as_completion_completed (ports.complete step result))
    | c ∷ cs ↦
        let command : ToolBatchCommand = record {
          identity = i;
          record_target = step.record_target;
          capabilities = step.capabilities;
          calls = c ∷ cs;
          assistant_text = result.text;
          reasoning = result.reasoning;
          previous_receipt = none;
          attempt = result.attempt;
        } in
        then_yield (yield_event (step_started i Phase.tools))
          (λ _. read_phase as_tool_batch_completed (ports.execute command))
  ]

  -- The body of `while True`, behind `allocate`.
  unfoldable pub turn : StepIdentity → Yielding X Next
  unfolding read_phase second_phase after_decision
  turn i = then_yield (yield_event (step_started i Phase.model)) (λ _.
      then_yield ([], ports.prepare i)
        (λ step. then_yield (read_phase as_model_completed (ports.stream step)) (λ result.
          then_yield (second_phase i step result) (λ decision. after_decision run_id decision))))

  -- The entry with a batch of tools; the loop goes on where its decision and the entry say so.
  unfoldable pub tool_turn : ToolBatchEntry → StepIdentity → Yielding X Next
  unfolding read_phase after_decision
  tool_turn entry i = then_yield (yield_event (step_started i Phase.tools)) (λ _.
      then_yield ([], ports.prepare i)
        (λ step.
          let command : ToolBatchCommand = record {
            identity = i;
            record_target = step.record_target;
            capabilities = step.capabilities;
            calls = entry.calls;
            assistant_text = entry.assistant_text;
            reasoning = entry.reasoning;
            previous_receipt = entry.previous_receipt;
            attempt = 1;
          } in
          then_yield (read_phase as_tool_batch_completed (ports.execute command)) (λ decision.
            then_yield (after_decision run_id decision) (λ next. elim next [
              | leave ↦ ([], ok leave)
              | go_on ↦ ([], ok (if entry.continue_after then go_on else leave))
            ]))))

  abbrev pub allocate_next : Bool → Counters → Result StepIdentity × Counters
  allocate_next consume_model c =
      allocate run_id limits (ports.stop c) (ports.budget c) consume_model c

  -- What is yielded, and how the run ended, or `none` where the rounds did not reach its end.
  abbrev pub Ran : Type 0
  Ran = List (RuntimeEvent X) × Option (Result (Unit {0}))

  abbrev pub go_from : Yielding X Next → Ran → Ran
  go_from (events, raise e) rest = (events, some (raise e))
  go_from (events, ok leave) rest = (events, some (ok tt))
  go_from (events, ok go_on) rest = (events ++ rest.0, rest.1)

  abbrev pub allocated_or : Result StepIdentity → (StepIdentity → Ran) → Ran
  allocated_or (raise e) rest = ([], some (raise e))
  allocated_or (ok i) rest = rest i

  unfoldable pub run_turns : ℕ → Counters → Ran
  unfolding turn
  run_turns zero c = ([], none)
  run_turns (suc k) c =
      let (given, c') = allocate_next true c in
      let rest = run_turns k c' in allocated_or given (λ i. go_from (turn i) rest)

  unfoldable pub run : ℕ → ExecutionEntry → Counters → Ran
  unfolding run_turns tool_turn
  run k completed c = ([], some (ok tt))
  run k model c = run_turns k c
  run k (tool_batch entry) c =
      let (given, c') = allocate_next false c in
      let rest = run_turns k c' in allocated_or given (λ i. go_from (tool_turn entry i) rest)
