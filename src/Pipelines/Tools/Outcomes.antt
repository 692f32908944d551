-- ===== src/Pipelines/Tools/Outcomes.antt =====
-- What a tool call gives back, and `DefaultResultPolicy` of src/agent_runtime/pipelines/tools.py.
use coresmos.Prelude.{true, false, ◌+◌, Option, none, some, List, [], ◌∷◌, ◌++◌}
use coresmos.Json.{Fields}
use coresmos.Errors.{Result}
use coresmos.Contracts.Messages.{ToolSpec, ToolResult}
use coresmos.Contracts.Receipts.{RecordTarget}
use coresmos.Contracts.Flows.{FlowDecision}
use coresmos.Contracts.Capabilities.{ContextContribution}
use coresmos.Capabilities.Sessions.{activate}
use coresmos.Policies.{aggregate_flow_decisions, default_decision, model_visible_tool_error}
use coresmos.Generators.{Generator, ◌>>=◌, ◌>>◌, return, call, modify, silently}
use coresmos.Pipelines.Application.{commit}
use coresmos.Pipelines.Session.{RunSession}

pub record InvocationOutcome : Type 0 where
  pub result : ToolResult
  pub flow_hint : Option FlowDecision
  pub next_record_target : Option RecordTarget
  pub activate_tools : List ToolSpec
  pub contributions : List ContextContribution
  pub state_payload : Option Fields

-- An error is passed on as the policy for visible errors makes it.
unfoldable pub visible : InvocationOutcome → InvocationOutcome
unfolding model_visible_tool_error
visible o = elim o.result.is_error [
  | true ↦ record o { result = model_visible_tool_error o.result }
  | false ↦ o
]

abbrev pub as_list : {A : Type 0} → Option A → List A
as_list none = []
as_list (some a) = a ∷ []

abbrev counted_policy : RunSession → RunSession
counted_policy s = record s { policy_calls = s.policy_calls + 1 }

-- `if outcome.next_record_target is not None: ...`
abbrev pub switch_target : Option RecordTarget → RunSession → RunSession
switch_target none s = s
switch_target (some t) s = record s { record_target = t }

abbrev pub contribute : List ContextContribution → RunSession → RunSession
contribute cs s = record s { extra_contributions = s.extra_contributions ++ cs }

module _ {E : Type 0} where
  -- A payload is committed to the target that the run has by then.
  unfoldable pub commit_payload : Option Fields → Generator RunSession E (Unit {0})
  unfolding commit
  commit_payload none = return tt
  commit_payload (some payload) =
      call (λ s. (
        (commit s.record_target payload s.application).0,
        record s { application = (commit s.record_target payload s.application).1 },
      ))
      >>= λ snapshot. return tt

abbrev pub decision_of : List FlowDecision → FlowDecision
decision_of [] = default_decision
decision_of (d ∷ ds) = aggregate_flow_decisions (d ∷ ds)

module _ (check_tool_spec : ToolSpec → Result (Unit {0})) {E : Type 0} where
  unfoldable pub activate_all : List ToolSpec → Generator RunSession E (Unit {0})
  unfolding activate
  activate_all [] = return tt
  activate_all (t ∷ ts) =
      call (λ s. (
        (activate check_tool_spec (t ∷ ts) s.capabilities).0,
        record s { capabilities = (activate check_tool_spec (t ∷ ts) s.capabilities).1 },
      ))
      >>= λ snapshot. return tt

  -- The side effects of one outcome, and its hint.
  unfoldable pub apply_outcome : InvocationOutcome → Generator RunSession E (List FlowDecision)
  unfolding activate_all commit_payload
  apply_outcome o = do
    modify counted_policy
    modify (switch_target o.next_record_target)
    activate_all o.activate_tools
    modify (contribute o.contributions)
    commit_payload o.state_payload
    return (as_list o.flow_hint)

  unfoldable pub apply_outcomes :
      List InvocationOutcome → Generator RunSession E (List FlowDecision)
  unfolding apply_outcome
  apply_outcomes [] = return []
  apply_outcomes (o ∷ os) = do
    hint ← apply_outcome o
    hints ← apply_outcomes os
    return (hint ++ hints)

  unfoldable pub apply_results : List InvocationOutcome → Generator RunSession E FlowDecision
  unfolding apply_outcomes
  apply_results outcomes = apply_outcomes outcomes >>= λ hints. return (decision_of hints)

-- `DefaultResultPolicy.apply`
unfoldable pub default_policy :
    (ToolSpec → Result (Unit {0}))
    → List InvocationOutcome
    → RunSession
    → Result FlowDecision × RunSession
unfolding apply_results
default_policy check_tool_spec outcomes =
    silently (apply_results check_tool_spec {E = Unit {0}} outcomes)
