-- ===== src/Policies.antt =====
-- src/agent_runtime/policies.py: one control decision for a batch of tool results.
pub mod Priority
use mathlib.Core.Option
use coresmos.Prelude.{
  Bool, true, false, Option, none, some, List, [], ◌∷◌, Text, codes, ite, truthy,
}
use coresmos.Errors.{Result, ok, raise, value_error}
use coresmos.Contracts.Enums.{Flow, Flow-discrete, flow_priority}
use coresmos.Contracts.Flows.{FlowDecision, PendingRef}
use coresmos.Contracts.Messages.{ToolResult}

-- `by_flow.get(flow)` where `by_flow = {d.flow: d for d in decisions}`: the last decision of that flow.
unfoldable pub by_flow : List FlowDecision → Flow → Option FlowDecision
unfolding Flow-discrete
by_flow [] flow = none
by_flow (d ∷ ds) flow = elim (by_flow ds flow) [
  | some later ↦ some later
  | none ↦ ite (Flow-discrete d.flow flow) (some d) none
]

-- `for flow in FLOW_PRIORITY: if flow in by_flow: return by_flow[flow]`
unfoldable pub first_flow : List Flow → List FlowDecision → Option FlowDecision
first_flow [] ds = none
first_flow (flow ∷ flows) ds = elim (by_flow ds flow) [
  | some d ↦ some d
  | none ↦ first_flow flows ds
]

abbrev pub default_decision : FlowDecision
default_decision = record {
  flow = Flow.continue;
  reason = some (codes "default");
  pending_ref = none;
}

unfoldable pub aggregate_flow_decisions : List FlowDecision → FlowDecision
aggregate_flow_decisions ds = elim (first_flow flow_priority ds) [
  | some d ↦ d
  | none ↦ default_decision
]

-- The one policy there is keeps the result visible; both branches of the source return it.
unfoldable pub model_visible_tool_error : ToolResult → ToolResult
model_visible_tool_error result = result

unfoldable pub wait_decision : PendingRef → Text → Result FlowDecision
wait_decision pending reason = elim pending.value [
  | [] ↦ raise value_error
  | c ∷ cs ↦ ok (record { flow = Flow.wait; reason = some reason; pending_ref = some pending })
]
