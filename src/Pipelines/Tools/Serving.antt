-- ===== src/Pipelines/Tools/Serving.antt =====
-- What the loop reads of a tool batch.
use coresmos.Prelude.{ℕ, ◌+◌, refl, Bool, true, false, List, [], ◌∷◌}
use coresmos.Errors.{Result}
use coresmos.Contracts.Messages.{ToolSpec, ToolCall}
use coresmos.Contracts.Receipts.{BatchReceipt}
use coresmos.Contracts.Flows.{FlowDecision}
use coresmos.Contracts.Steps.{
  ExternalWorkRef, ToolBatchCommand, ToolBatchEvent, tool_batch_completed,
}
use coresmos.Pipelines.Session.{RunSession, Control, ask, recording}
use coresmos.Pipelines.Protocol.{
  Quiet, Served, Said-Served, >>=-Speaks, return-Speaks, throw-Speaks, yield-Quiet, yield-Speaks,
  call-Quiet, check-Quiet, modify-Quiet, catch-Quiet, if-Speaks,
}
use coresmos.Pipelines.Tools.Outcomes.{InvocationOutcome}
use coresmos.Pipelines.Tools.{
  Report, declare, progress, Waited, ended, stopped, Invoked, report, report_all, declare_all,
  raise_stopped, after_wait, invoke_call, invoke_all, record_results, run_calls, execute,
}

-- `isinstance(event, ToolBatchCompleted)`
abbrev pub is_batch_completed : ToolBatchEvent → Bool
is_batch_completed (tool_batch_completed i d rs receipt) = true
is_batch_completed _ = false

module _ (validate_tool_call : ToolSpec → ToolCall → Result (Unit {0})) (control : Control)
    (invoke : ℕ → ToolCall → Invoked)
    (policy : List InvocationOutcome → RunSession → Result FlowDecision × RunSession)
    (command : ToolBatchCommand) where
  report_all-Quiet :
      (c : ToolCall) (rs : List Report)
      → Quiet is_batch_completed (report_all validate_tool_call control invoke policy command c rs)
  unfolding report_all report
  report_all-Quiet c [] = return-Speaks is_batch_completed _ refl
  report_all-Quiet c (declare work ∷ rs) =
      >>=-Speaks is_batch_completed
        (>>=-Speaks is_batch_completed (modify-Quiet is_batch_completed _)
          (λ _. yield-Quiet is_batch_completed _ refl))
        (λ _. report_all-Quiet c rs)
  report_all-Quiet c (progress payload ∷ rs) =
      >>=-Speaks is_batch_completed (yield-Quiet is_batch_completed _ refl)
        (λ _. report_all-Quiet c rs)

  declare_all-Quiet :
      (ws : List ExternalWorkRef)
      → Quiet is_batch_completed (declare_all validate_tool_call control invoke policy command ws)
  declare_all-Quiet [] = return-Speaks is_batch_completed _ refl
  declare_all-Quiet (w ∷ ws) =
      >>=-Speaks is_batch_completed (modify-Quiet is_batch_completed _) (λ _. declare_all-Quiet ws)

  after_wait-Quiet :
      (w : Waited) (late : List ExternalWorkRef)
      → Quiet is_batch_completed
          (after_wait validate_tool_call control invoke policy command w late)
  unfolding raise_stopped
  after_wait-Quiet (ended r) late = check-Quiet is_batch_completed r
  after_wait-Quiet stopped late =
      >>=-Speaks is_batch_completed (declare_all-Quiet late) (λ _. call-Quiet is_batch_completed _)

  invoke_call-Quiet :
      (c : ToolCall) (i : Invoked)
      → Quiet is_batch_completed (invoke_call validate_tool_call control invoke policy command c i)
  unfolding invoke_call
  invoke_call-Quiet c i =
      >>=-Speaks is_batch_completed (report_all-Quiet c i.reports)
        (λ _. after_wait-Quiet i.waited i.late)

  invoke_all-Quiet :
      (n : ℕ) (cs : List ToolCall)
      → Quiet is_batch_completed (invoke_all validate_tool_call control invoke policy command n cs)
  unfolding invoke_all ask
  invoke_all-Quiet n [] = return-Speaks is_batch_completed _ refl
  invoke_all-Quiet n (c ∷ cs) =
      >>=-Speaks is_batch_completed (call-Quiet is_batch_completed _) (λ _.
        >>=-Speaks is_batch_completed (invoke_call-Quiet c (invoke n c)) (λ _.
          >>=-Speaks is_batch_completed (yield-Quiet is_batch_completed _ refl) (λ _.
            >>=-Speaks is_batch_completed (invoke_all-Quiet (n + 1) cs)
              (λ _. return-Speaks is_batch_completed _ refl))))

  record_results-Quiet :
      (receipt : BatchReceipt) (os : List InvocationOutcome)
      → Quiet is_batch_completed
          (record_results validate_tool_call control invoke policy command receipt os)
  unfolding record_results recording
  record_results-Quiet receipt os =
      if-Speaks is_batch_completed receipt.recording_required _ _
        (>>=-Speaks is_batch_completed (call-Quiet is_batch_completed _)
          (λ _. return-Speaks is_batch_completed _ refl))
        (return-Speaks is_batch_completed _ refl)

  -- The loop reads a tool batch that returned as its completion and all its events, and one that
  -- raised as that exception before any completion, whatever the tools and the policy answer.
  pub execute-Served :
      (s : RunSession)
      → Served is_batch_completed (execute validate_tool_call control invoke policy command s)
  unfolding execute run_calls ask recording
  execute-Served s = Said-Served is_batch_completed (
      (>>=-Speaks is_batch_completed {done = λ _. true} (call-Quiet is_batch_completed _) (λ _.
          >>=-Speaks is_batch_completed (call-Quiet is_batch_completed _) (λ _.
            >>=-Speaks is_batch_completed (call-Quiet is_batch_completed _) (λ receipt.
              >>=-Speaks is_batch_completed (yield-Quiet is_batch_completed _ refl) (λ _.
                >>=-Speaks is_batch_completed (invoke_all-Quiet 0 command.calls) (λ os.
                  >>=-Speaks is_batch_completed (record_results-Quiet receipt os) (λ _.
                    >>=-Speaks is_batch_completed
                      (catch-Quiet is_batch_completed (call-Quiet is_batch_completed _)
                        (λ e. throw-Speaks is_batch_completed _))
                      (λ d. yield-Speaks is_batch_completed _ refl refl)))))))).said
        s)
