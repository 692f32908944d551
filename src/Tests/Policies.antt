-- ===== src/Tests/Policies.antt =====
-- The theorems on src/agent_runtime/policies.py at concrete decisions.
use coresmos.Prelude.{◌≡◌, refl, none, some, [], ◌∷◌, codes}
use coresmos.Contracts.Enums.{Flow}
use coresmos.Contracts.Flows.{FlowDecision}
use coresmos.Policies.{aggregate_flow_decisions, by_flow, first_flow}
use coresmos.Policies.Priority
use coresmos.Policies.Priority.{Aggregates}

abbrev finish : FlowDecision
finish = record { flow = Flow.finish; reason = some (codes "done"); pending_ref = none }

abbrev go_on : FlowDecision
go_on = record { flow = Flow.continue; reason = none; pending_ref = none }

finish_wins : aggregate_flow_decisions (go_on ∷ finish ∷ go_on ∷ []) ≡ finish
unfolding aggregate_flow_decisions by_flow first_flow
finish_wins = refl

aggregate_flow_decisions-Aggregates_example :
    Aggregates
      (go_on ∷ finish ∷ go_on ∷ [])
      (aggregate_flow_decisions (go_on ∷ finish ∷ go_on ∷ []))
aggregate_flow_decisions-Aggregates_example =
    Priority.aggregate_flow_decisions-Aggregates (go_on ∷ finish ∷ go_on ∷ [])
