-- ===== src/Pipelines/Tools/Checks.antt =====
-- A tool batch is checked as a whole before anything is written or run.
use coresmos.Prelude.{◌+◌, ◌≡◌, refl, ℕ, some, List, [], ◌∷◌, Text, inl, inr, Option-cases, ◌⊎◌}
use coresmos.Errors.{Error, Result, ok, raise, Result-cases}
use coresmos.Contracts.Messages.{ToolSpec, ToolCall}
use coresmos.Contracts.Flows.{FlowDecision}
use coresmos.Contracts.Capabilities.{CapabilitySnapshot, find_tool}
use coresmos.Contracts.Steps.{ToolBatchCommand}
use coresmos.Capabilities.Bindings.{BindingRegistry, resolve}
use coresmos.Loop.Allocation.{raise_if_stopped}
use coresmos.Generators.{◌>>=◌, call}
use coresmos.Pipelines.Session.{RunSession, Control, ask}
use coresmos.Pipelines.Tools.Outcomes.{InvocationOutcome}
use coresmos.Pipelines.Tools.{
  Invoked, validate_call, validate_calls, validate_batch, validate_some, execute,
}

module _ (validate_tool_call : ToolSpec → ToolCall → Result (Unit {0})) where
  -- A call that may run: its tool stands in the step's snapshot and accepts the arguments, and the
  -- binding that the snapshot names has the tool.
  pub record IsCallable (snapshot : CapabilitySnapshot) (bindings : BindingRegistry) (c : ToolCall)
      : Type 0 where
    pub spec : ToolSpec
    pub listed : find_tool c.name snapshot.tools ≡ some spec
    pub accepted : validate_tool_call spec c ≡ ok tt
    pub key : Text
    pub bound : resolve bindings snapshot.binding_ref c.name ≡ ok key

  pub data AllCallable (snapshot : CapabilitySnapshot) (bindings : BindingRegistry)
      : List ToolCall → Type 0 where
    none_left : AllCallable snapshot bindings []
    and_then :
        {c : ToolCall} {cs : List ToolCall}
        → IsCallable snapshot bindings c
        → AllCallable snapshot bindings cs
        → AllCallable snapshot bindings (c ∷ cs)

  validate_call-IsCallable :
      (snapshot : CapabilitySnapshot) (bindings : BindingRegistry) (c : ToolCall)
      → validate_call validate_tool_call snapshot bindings c ≡ ok tt
      → IsCallable snapshot bindings c
  unfolding validate_call
  validate_call-IsCallable snapshot bindings c h =
      elim (Option-cases (find_tool c.name snapshot.tools)) [
        | inl e ↦ absurd (cc (rw (e, validate_call) at h))
        | inr (spec, e) ↦ elim (Result-cases (validate_tool_call spec c)) [
          | inr (x, f) ↦ absurd (cc (rw (e, f, validate_call) at h))
          | inl (u, f) ↦ elim (Result-cases (resolve bindings snapshot.binding_ref c.name)) [
            | inr (x, g) ↦ absurd (cc (rw (e, f, g, validate_call) at h))
            | inl (key, g) ↦ record { spec = spec; listed = e; accepted = f; key = key; bound = g }
          ]
        ]
      ]

  validate_calls-AllCallable :
      (snapshot : CapabilitySnapshot) (bindings : BindingRegistry) (cs : List ToolCall)
      → validate_calls validate_tool_call snapshot bindings cs ≡ ok tt
      → AllCallable snapshot bindings cs
  unfolding validate_calls
  validate_calls-AllCallable snapshot bindings [] h = none_left
  validate_calls-AllCallable snapshot bindings (c ∷ cs) h =
      elim (Result-cases (validate_call validate_tool_call snapshot bindings c)) [
        | inr (x, e) ↦ absurd (cc (rw (e, validate_calls) at h))
        | inl (u, e) ↦
            and_then (validate_call-IsCallable snapshot bindings c e)
              (validate_calls-AllCallable snapshot bindings cs (rw (e, validate_calls) at h))
      ]

  -- The calls of a batch that may run: there is one, and each is callable.
  pub data Runnable (snapshot : CapabilitySnapshot) (bindings : BindingRegistry)
      : List ToolCall → Type 0 where
    some_calls :
        (c : ToolCall) (cs : List ToolCall)
        → AllCallable snapshot bindings (c ∷ cs)
        → Runnable snapshot bindings (c ∷ cs)

  validate_some-Runnable :
      (snapshot : CapabilitySnapshot) (bindings : BindingRegistry) (cs : List ToolCall)
      → validate_some validate_tool_call snapshot bindings cs ≡ ok tt
      → Runnable snapshot bindings cs
  validate_some-Runnable snapshot bindings [] h = cc
  validate_some-Runnable snapshot bindings (c ∷ cs) h =
      some_calls c cs (validate_calls-AllCallable snapshot bindings (c ∷ cs) h)

  module _ (control : Control) (invoke : ℕ → ToolCall → Invoked)
      (policy : List InvocationOutcome → RunSession → Result FlowDecision × RunSession)
      (command : ToolBatchCommand) where
    -- A batch was refused: nothing was yielded, and the session was asked for a stop, no more.
    abbrev pub IsRefused : RunSession → Type 0
    IsRefused s =
        (e : Error) × (execute validate_tool_call control invoke policy command s
          ≡ ([], raise e, record s { asked = s.asked + 1 }))

    -- A tool batch is refused with nothing yielded and nothing written, or it has calls and every one
    -- of them is in the step's snapshot, accepted by its tool's schema, and bound.
    pub execute-IsRefused_or :
        (s : RunSession)
        → IsRefused s ⊎ Runnable command.capabilities s.capabilities.1 command.calls
    unfolding execute ask ◌>>=◌ call
    execute-IsRefused_or s = elim (Result-cases (raise_if_stopped (control s.asked))) [
      | inr (e, p) ↦ inl (e, rw p refl)
      | inl (u, p) ↦
          elim (Result-cases (validate_batch validate_tool_call command s.capabilities.1)) [
            | inr (e, q) ↦ inl (e, rw (p, q) refl)
            | inl (u, q) ↦ inr (
                validate_some-Runnable command.capabilities s.capabilities.1 command.calls
                  (unfold validate_batch in q))
          ]
    ]
