-- ===== src/Pipelines/Tools/Committing.antt =====
-- What a tool batch commits to the transcript.
use mathlib.Core.List.{append-nil}
use coresmos.Prelude.{ℕ, ◌≡◌, refl, ◌∙◌, true, false, List, [], ◌∷◌, ◌++◌, codes}
use coresmos.Errors.{Result, ok, raise}
use coresmos.Contracts.Messages.{ToolSpec, ToolCall, ToolResult}
use coresmos.Contracts.Receipts.{MessageReceipt, BatchReceipt}
use coresmos.Contracts.Flows.{FlowDecision}
use coresmos.Contracts.Steps.{
  ToolBatchCommand, ToolBatchEvent, tool_calls_recorded, tool_batch_completed,
}
use coresmos.Recording.Store.{MemoryTranscript, Exec}
use coresmos.Recording.Batches.{record_tool_calls, record_tool_results}
use coresmos.Generators.{call, catch, caught, throw, yield, return}
use coresmos.Generators.Reaching.{
  Reached, raised, reached, Reached-map, Reached-state, test-Reached, >>=-Reached,
}
use coresmos.Pipelines.Session.{RunSession, Control, ask, recording}
use coresmos.Pipelines.Completion.{failed_commit}
use coresmos.Pipelines.Untouched.{Untouched}
use coresmos.Pipelines.Tools.Outcomes.{InvocationOutcome, default_policy}
use coresmos.Pipelines.Tools.Untouched.{invoke_all-Leaves, default_policy-Untouched}
use coresmos.Pipelines.Tools.{
  Invoked, batch_op, results_of, invoke_all, record_results, run_calls, execute,
}

-- The results of a batch in the transcript: committed behind its calls, or, for tools that are not
-- recorded, nowhere.
pub data ResultsCommitted (command : ToolBatchCommand) (receipt : BatchReceipt)
    (results : List ToolResult) (t : MemoryTranscript) : MemoryTranscript → Type 0 where
  not_required : receipt.recording_required ≡ false → ResultsCommitted command receipt results t t
  committed :
      {t' : MemoryTranscript} {receipts : List MessageReceipt}
      → receipt.recording_required ≡ true
      → record_tool_results command.identity.run_id command.identity.step_no command.record_target
          results
          (batch_op command ++ codes ":tool_results")
          receipt
          t
        ≡ (ok receipts, t')
      → ResultsCommitted command receipt results t t'

-- A batch that returned: its transcript is the one of before with the calls committed and then the
-- results, and nothing else; its last event carries that receipt and those results.
pub record IsRecorded (command : ToolBatchCommand) (t : MemoryTranscript)
    (events : List ToolBatchEvent) (t' : MemoryTranscript) : Type 0 where
  pub receipt : BatchReceipt
  pub results : List ToolResult
  pub decision : FlowDecision
  pub between : List ToolBatchEvent
  pub in_order :
      events
      ≡ tool_calls_recorded command.identity receipt ∷ between
        ++ tool_batch_completed command.identity decision results receipt ∷ []
  pub with_calls : MemoryTranscript
  pub calls_committed :
      record_tool_calls command.identity.run_id command.identity.step_no command.record_target
        command.calls command.assistant_text command.reasoning
        (batch_op command ++ codes ":tool_calls")
        command.previous_receipt
        command.attempt
        t
      ≡ (ok receipt, with_calls)
  pub results_committed : ResultsCommitted command receipt results with_calls t'

module _ {E : Type 0} where
  -- A call of the transcript that returned.
  recording-Reached :
      {A : Type 0} (operation : Exec A) (s : RunSession)
      → Reached
          (λ (events : List E) a s'.
            (events ≡ []) × (operation s.transcript ≡ (ok a, s'.transcript)))
          (recording operation s)
  unfolding recording call
  recording-Reached {A} operation s = by_result _ refl
    where
      by_result :
          (q : Result A × MemoryTranscript)
          → operation s.transcript ≡ q
          → Reached
              (λ (events : List E) a s'.
                (events ≡ []) × (operation s.transcript ≡ (ok a, s'.transcript)))
              ([], q.0, record s { transcript = q.1 })
      by_result (raise e, t) p = raised _ _ _
      by_result (ok a, t) p = reached _ _ _ (refl, p)

  -- What yields nothing and does not touch the transcript.
  silent-Reached :
      {A : Type 0} (f : RunSession → Result A × RunSession) (s : RunSession)
      → Untouched s (f s).1
      → Reached
          (λ (events : List E) _ s'. (events ≡ []) × (s'.transcript ≡ s.transcript))
          (call f s)
  unfolding call
  silent-Reached {A} f s h = by_result (f s) h
    where
      by_result :
          (q : Result A × RunSession)
          → Untouched s q.1
          → Reached
              (λ (events : List E) _ s'. (events ≡ []) × (s'.transcript ≡ s.transcript))
              ([], q.0, q.1)
      by_result (raise e, s') p = raised _ _ _
      by_result (ok a, s') p = reached _ _ _ (refl, p)

-- The host's result policy is the default one.
module _ (check_tool_spec : ToolSpec → Result (Unit {0}))
    (validate_tool_call : ToolSpec → ToolCall → Result (Unit {0})) (control : Control)
    (invoke : ℕ → ToolCall → Invoked) (command : ToolBatchCommand) where
  abbrev policy : List InvocationOutcome → RunSession → Result FlowDecision × RunSession
  policy = default_policy check_tool_spec

  abbrev results : List InvocationOutcome → List ToolResult
  results outcomes = results_of validate_tool_call control invoke policy command outcomes

  record_results-Reached :
      (receipt : BatchReceipt) (outcomes : List InvocationOutcome) (s : RunSession)
      → Reached
          (λ events _ s'.
            (events ≡ [])
            × ResultsCommitted command receipt (results outcomes) s.transcript s'.transcript)
          (record_results validate_tool_call control invoke policy command receipt outcomes s)
  unfolding record_results return
  record_results-Reached receipt outcomes s =
      test-Reached receipt.recording_required _ _ s
        (λ e.
          >>=-Reached _ (λ xs receipts s' (p, q). reached _ _ _ (append-nil xs ∙ p, committed e q))
            (recording _) s (recording-Reached _ s))
        (λ e. reached _ _ _ (refl, not_required e))

  policy-Reached :
      (outcomes : List InvocationOutcome) (s : RunSession)
      → Reached
          (λ (events : List ToolBatchEvent) _ s'. (events ≡ []) × (s'.transcript ≡ s.transcript))
          (catch (call (policy outcomes)) (λ e. throw (failed_commit e)) s)
  unfolding catch call throw
  policy-Reached outcomes s =
      by_result (policy outcomes s) (default_policy-Untouched check_tool_spec outcomes s)
    where
      by_result :
          (q : Result FlowDecision × RunSession)
          → Untouched s q.1
          → Reached
              (λ (events : List ToolBatchEvent) _ s'.
                (events ≡ []) × (s'.transcript ≡ s.transcript))
              (caught ([], q.0, q.1) (λ e. throw (failed_commit e)))
      by_result (raise e, s') p = raised _ _ _
      by_result (ok d, s') p = reached _ _ _ (refl, p)

  -- What follows the commit of the calls.
  abbrev Tail : BatchReceipt → MemoryTranscript → List ToolBatchEvent → MemoryTranscript → Type 0
  Tail receipt t events t' =
      (rs : List ToolResult) × (decision : FlowDecision) × (between : List ToolBatchEvent) × (events
        ≡ tool_calls_recorded command.identity receipt ∷ between
          ++ tool_batch_completed command.identity decision rs receipt ∷ [])
      × ResultsCommitted command receipt rs t t'

  run_calls-Tail :
      (receipt : BatchReceipt) (s : RunSession)
      → Reached
          (λ events _ s'. Tail receipt s.transcript events s'.transcript)
          (run_calls validate_tool_call control invoke policy command receipt s)
  unfolding run_calls yield
  run_calls-Tail receipt s =
      >>=-Reached
        {P = λ xs _ s1.
          (xs ≡ tool_calls_recorded command.identity receipt ∷ []) × (s1.transcript ≡ s.transcript)}
        _
        (λ xs _ s1 (p, q).
          >>=-Reached _
            (λ ys outcomes s2 q2.
              >>=-Reached _
                (λ zs _ s3 (p3, c).
                  >>=-Reached _
                    (λ ws d s4 (p4, q4).
                      reached _ _ _
                        (results outcomes, d, ys, rw (p, p3, p4) refl, rw q4 (rw (q2, q) at c)))
                    (catch (call (policy outcomes)) (λ e. throw (failed_commit e))) s3
                    (policy-Reached outcomes s3))
                (record_results validate_tool_call control invoke policy command receipt outcomes)
                s2 (record_results-Reached receipt outcomes s2))
            (invoke_all validate_tool_call control invoke policy command 0 command.calls) s1
            (Reached-state {Q = λ s'. s'.transcript ≡ s1.transcript} _ (
              (invoke_all-Leaves validate_tool_call control invoke policy command 0
                  command.calls).ends
                s1)))
        (yield (tool_calls_recorded command.identity receipt)) s (reached _ _ _ (refl, refl))

  -- A tool batch under the default result policy that returned has committed its calls, and then, if
  -- their receipt requires it, its results, and has written nothing else: its first event carries
  -- the receipt of the calls, and its last event that receipt and the results.
  pub execute-IsRecorded :
      (s : RunSession)
      → Reached
          (λ events _ s'. IsRecorded command s.transcript events s'.transcript)
          (execute validate_tool_call control invoke policy command s)
  unfolding execute ask
  execute-IsRecorded s =
      >>=-Reached _
        (λ xs _ s1 (p1, q1).
          >>=-Reached _
            (λ ys _ s2 (p2, q2).
              >>=-Reached _
                (λ zs receipt s3 (p3, c).
                  Reached-map
                    (λ events _ s4 (rs, d, between, e, done). record {
                      receipt = receipt;
                      results = rs;
                      decision = d;
                      between = between;
                      in_order = rw (p1, p2, p3) e;
                      with_calls = s3.transcript;
                      calls_committed = rw (q2, q1) at c;
                      results_committed = done;
                    })
                    (run_calls-Tail receipt s3))
                (recording _) s2 (recording-Reached _ s2))
            (call _) s1 (silent-Reached _ s1 refl))
        (call _) s (silent-Reached _ s refl)
