-- ===== src/Pipelines/Tools/Untouched.antt =====
-- Running the calls of a tool batch, and the default result policy, do not touch the transcript.
use coresmos.Prelude.{refl, ℕ, ◌+◌, none, some, List, [], ◌∷◌, Option}
use coresmos.Json.{Fields}
use coresmos.Errors.{Result}
use coresmos.Contracts.Messages.{ToolSpec, ToolCall}
use coresmos.Contracts.Receipts.{RecordTarget}
use coresmos.Contracts.Flows.{FlowDecision}
use coresmos.Contracts.Steps.{ExternalWorkRef, ToolBatchCommand}
use coresmos.Pipelines.Session.{RunSession, Control}
use coresmos.Pipelines.Untouched.{
  LeavesTranscript, Untouched, return-Leaves, yield-Leaves, >>=-Leaves, call-Leaves, modify-Leaves,
  check-Leaves, ask-Leaves,
}
use coresmos.Pipelines.Tools.Outcomes.{
  InvocationOutcome, commit_payload, activate_all, apply_outcome, apply_outcomes, apply_results,
  default_policy, switch_target,
}
use coresmos.Pipelines.Tools.{
  Report, declare, progress, Waited, ended, stopped, Invoked, report, report_all, declare_all,
  raise_stopped, after_wait, invoke_call, invoke_all,
}

switch-Untouched : (t : Option RecordTarget) (s : RunSession) → Untouched s (switch_target t s)
switch-Untouched none s = refl
switch-Untouched (some t) s = refl

module _ {E : Type 0} where
  commit_payload-Leaves : (p : Option Fields) → LeavesTranscript (commit_payload {E = E} p)
  unfolding commit_payload
  commit_payload-Leaves none = return-Leaves _
  commit_payload-Leaves (some p) = >>=-Leaves (call-Leaves _ (λ s. refl)) (λ _. return-Leaves _)

  module _ (check_tool_spec : ToolSpec → Result (Unit {0})) where
    activate_all-Leaves :
        (ts : List ToolSpec) → LeavesTranscript (activate_all check_tool_spec {E = E} ts)
    unfolding activate_all
    activate_all-Leaves [] = return-Leaves _
    activate_all-Leaves (t ∷ ts) = >>=-Leaves (call-Leaves _ (λ s. refl)) (λ _. return-Leaves _)

    apply_outcome-Leaves :
        (o : InvocationOutcome) → LeavesTranscript (apply_outcome check_tool_spec {E = E} o)
    unfolding apply_outcome
    apply_outcome-Leaves o = >>=-Leaves (modify-Leaves _ (λ s. refl)) (λ _.
        >>=-Leaves (modify-Leaves _ (switch-Untouched o.next_record_target)) (λ _.
          >>=-Leaves (activate_all-Leaves o.activate_tools) (λ _.
            >>=-Leaves (modify-Leaves _ (λ s. refl))
              (λ _. >>=-Leaves (commit_payload-Leaves o.state_payload) (λ _. return-Leaves _)))))

    apply_outcomes-Leaves :
        (os : List InvocationOutcome) → LeavesTranscript (apply_outcomes check_tool_spec {E = E} os)
    unfolding apply_outcomes
    apply_outcomes-Leaves [] = return-Leaves _
    apply_outcomes-Leaves (o ∷ os) =
        >>=-Leaves (apply_outcome-Leaves o)
          (λ _. >>=-Leaves (apply_outcomes-Leaves os) (λ _. return-Leaves _))

    apply_results-Leaves :
        (os : List InvocationOutcome) → LeavesTranscript (apply_results check_tool_spec {E = E} os)
    unfolding apply_results
    apply_results-Leaves os = >>=-Leaves (apply_outcomes-Leaves os) (λ _. return-Leaves _)

-- The default result policy writes nothing to the transcript.
pub default_policy-Untouched :
    (check_tool_spec : ToolSpec → Result (Unit {0})) (os : List InvocationOutcome) (s : RunSession)
    → Untouched s (default_policy check_tool_spec os s).1
unfolding default_policy
default_policy-Untouched check_tool_spec os s =
    (apply_results-Leaves {E = Unit {0}} check_tool_spec os).ends s

module _ (validate_tool_call : ToolSpec → ToolCall → Result (Unit {0})) (control : Control)
    (invoke : ℕ → ToolCall → Invoked)
    (policy : List InvocationOutcome → RunSession → Result FlowDecision × RunSession)
    (command : ToolBatchCommand) where
  report_all-Leaves :
      (c : ToolCall) (rs : List Report)
      → LeavesTranscript (report_all validate_tool_call control invoke policy command c rs)
  unfolding report_all report
  report_all-Leaves c [] = return-Leaves _
  report_all-Leaves c (declare work ∷ rs) =
      >>=-Leaves (>>=-Leaves (modify-Leaves _ (λ s. refl)) (λ _. yield-Leaves _))
        (λ _. report_all-Leaves c rs)
  report_all-Leaves c (progress payload ∷ rs) =
      >>=-Leaves (yield-Leaves _) (λ _. report_all-Leaves c rs)

  declare_all-Leaves :
      (ws : List ExternalWorkRef)
      → LeavesTranscript (declare_all validate_tool_call control invoke policy command ws)
  declare_all-Leaves [] = return-Leaves _
  declare_all-Leaves (w ∷ ws) =
      >>=-Leaves (modify-Leaves _ (λ s. refl)) (λ _. declare_all-Leaves ws)

  after_wait-Leaves :
      (w : Waited) (late : List ExternalWorkRef)
      → LeavesTranscript (after_wait validate_tool_call control invoke policy command w late)
  unfolding raise_stopped
  after_wait-Leaves (ended r) late = check-Leaves r
  after_wait-Leaves stopped late =
      >>=-Leaves (declare_all-Leaves late) (λ _. call-Leaves _ (λ s. refl))

  invoke_call-Leaves :
      (c : ToolCall) (i : Invoked)
      → LeavesTranscript (invoke_call validate_tool_call control invoke policy command c i)
  unfolding invoke_call
  invoke_call-Leaves c i =
      >>=-Leaves (report_all-Leaves c i.reports) (λ _. after_wait-Leaves i.waited i.late)

  pub invoke_all-Leaves :
      (n : ℕ) (cs : List ToolCall)
      → LeavesTranscript (invoke_all validate_tool_call control invoke policy command n cs)
  unfolding invoke_all
  invoke_all-Leaves n [] = return-Leaves _
  invoke_all-Leaves n (c ∷ cs) = >>=-Leaves (ask-Leaves control) (λ _.
      >>=-Leaves (invoke_call-Leaves c (invoke n c)) (λ _.
        >>=-Leaves (yield-Leaves _)
          (λ _. >>=-Leaves (invoke_all-Leaves (n + 1) cs) (λ _. return-Leaves _))))
