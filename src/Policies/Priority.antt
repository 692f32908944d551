-- ===== src/Policies/Priority.antt =====
-- The decision of a batch, against the order of the flows.
use coresmos.Prelude.{
  ℕ, ◌≤◌, ◌≡◌, ◌≢◌, refl, Option, none, some, List, [], ◌∷◌, ◌++◌, All, arith, ap, if_pos, if_neg,
}
use coresmos.Contracts.Enums.{Flow, Flow-discrete}
use coresmos.Contracts.Flows.{FlowDecision}
use coresmos.Policies.{by_flow, first_flow, default_decision, aggregate_flow_decisions}

-- WAIT outranks FINISH, which outranks CONTINUE.
abbrev pub rank : Flow → ℕ
rank Flow.wait = 2
rank Flow.finish = 1
rank Flow.continue = 0

-- `d` stands in the list, and no decision after it has its flow.
pub record IsLastOf (d : FlowDecision) (ds : List FlowDecision) : Type 0 where
  pub before : List FlowDecision
  pub after : List FlowDecision
  pub split : ds ≡ before ++ (d ∷ after)
  pub last : All (λ (x : FlowDecision). x.flow ≢ d.flow) after

pub data Found (ds : List FlowDecision) (flow : Flow) (o : Option FlowDecision) : Type 0 where
  absent : o ≡ none → All (λ (x : FlowDecision). x.flow ≢ flow) ds → Found ds flow o
  present : (d : FlowDecision) → o ≡ some d → d.flow ≡ flow → IsLastOf d ds → Found ds flow o

Found-cons :
    (d : FlowDecision) {ds : List FlowDecision} {flow : Flow}
    → Found ds flow (by_flow ds flow)
    → Found (d ∷ ds) flow (by_flow (d ∷ ds) flow)
unfolding by_flow
Found-cons d {flow} (absent e h) = elim (Flow-discrete d.flow flow) [
  | yes same ↦
      present d (rw e (if_pos (Flow-discrete d.flow flow) same (some d) none)) same
        (record { before = []; after = _; split = refl; last = rw same h })
  | no other ↦ absent (rw e (if_neg (Flow-discrete d.flow flow) other (some d) none)) (other, h)
]
Found-cons d (present x e same l) =
    present x (rw e) same
      (record { before = d ∷ l.before; after = l.after; split = ap (◌∷◌ d) l.split; last = l.last })

by_flow-Found : (ds : List FlowDecision) (flow : Flow) → Found ds flow (by_flow ds flow)
by_flow-Found [] flow = unfold by_flow in absent refl tt
by_flow-Found (d ∷ ds) flow = Found-cons d (by_flow-Found ds flow)

-- What the decision of a batch is: the default for no decisions, and else the last of those whose
-- flow no other outranks.
pub data Aggregates (ds : List FlowDecision) (r : FlowDecision) : Type 0 where
  nothing : ds ≡ [] → r ≡ default_decision → Aggregates ds r
  chosen :
      IsLastOf r ds → All (λ (x : FlowDecision). rank x.flow ≤ rank r.flow) ds → Aggregates ds r

below_wait : (ds : List FlowDecision) → All (λ (x : FlowDecision). rank x.flow ≤ 2) ds
below_wait [] = tt
below_wait (d ∷ ds) = (ground arith, below_wait ds)

below_finish :
    (ds : List FlowDecision)
    → All (λ (x : FlowDecision). x.flow ≢ Flow.wait) ds
    → All (λ (x : FlowDecision). rank x.flow ≤ 1) ds
below_finish [] h = tt
below_finish (d ∷ ds) h = (ground (arith, h.0), below_finish ds h.1)

below_continue :
    (ds : List FlowDecision)
    → All (λ (x : FlowDecision). x.flow ≢ Flow.wait) ds
    → All (λ (x : FlowDecision). x.flow ≢ Flow.finish) ds
    → All (λ (x : FlowDecision). rank x.flow ≤ 0) ds
below_continue [] h k = tt
below_continue (d ∷ ds) h k = (ground (arith, h.0, k.0), below_continue ds h.1 k.1)

none_left :
    (ds : List FlowDecision)
    → All (λ (x : FlowDecision). x.flow ≢ Flow.wait) ds
    → All (λ (x : FlowDecision). x.flow ≢ Flow.finish) ds
    → All (λ (x : FlowDecision). x.flow ≢ Flow.continue) ds
    → ds ≡ []
none_left [] h k l = refl
none_left (d ∷ ds) h k l = ground (arith, h.0, k.0, l.0)

module _ (ds : List FlowDecision) (d : FlowDecision) where
  waits : by_flow ds Flow.wait ≡ some d → aggregate_flow_decisions ds ≡ d
  unfolding aggregate_flow_decisions first_flow
  waits e = ground arith

  finishes :
      by_flow ds Flow.wait ≡ none
      → by_flow ds Flow.finish ≡ some d
      → aggregate_flow_decisions ds ≡ d
  unfolding aggregate_flow_decisions first_flow
  finishes e e' = ground arith

  continues :
      by_flow ds Flow.wait ≡ none
      → by_flow ds Flow.finish ≡ none
      → by_flow ds Flow.continue ≡ some d
      → aggregate_flow_decisions ds ≡ d
  unfolding aggregate_flow_decisions first_flow
  continues e e' e'' = ground arith

defaults :
    (ds : List FlowDecision)
    → by_flow ds Flow.wait ≡ none
    → by_flow ds Flow.finish ≡ none
    → by_flow ds Flow.continue ≡ none
    → aggregate_flow_decisions ds ≡ default_decision
unfolding aggregate_flow_decisions first_flow
defaults ds e e' e'' = ground arith

aggregate_of :
    (ds : List FlowDecision)
    → Found ds Flow.wait (by_flow ds Flow.wait)
    → Found ds Flow.finish (by_flow ds Flow.finish)
    → Found ds Flow.continue (by_flow ds Flow.continue)
    → Aggregates ds (aggregate_flow_decisions ds)
aggregate_of ds (present d e same l) f c = rw (waits ds d e) (chosen l (rw same (below_wait ds)))
aggregate_of ds (absent e h) (present d e' same l) c =
    rw (finishes ds d e e') (chosen l (rw same (below_finish ds h)))
aggregate_of ds (absent e h) (absent e' h') (present d e'' same l) =
    rw (continues ds d e e' e'') (chosen l (rw same (below_continue ds h h')))
aggregate_of ds (absent e h) (absent e' h') (absent e'' h'') =
    rw (defaults ds e e' e'') (nothing (none_left ds h h' h'') refl)

-- The decision for a batch is the default for no decisions. Otherwise it is one of them, none
-- outranks it (WAIT over FINISH over CONTINUE), and of those of its flow it is the last.
pub aggregate_flow_decisions-Aggregates :
    (ds : List FlowDecision) → Aggregates ds (aggregate_flow_decisions ds)
aggregate_flow_decisions-Aggregates ds =
    aggregate_of ds (by_flow-Found ds Flow.wait) (by_flow-Found ds Flow.finish)
      (by_flow-Found ds Flow.continue)
