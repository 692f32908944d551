-- ===== src/Pipelines/Tools/Answers.antt =====
-- The results of a tool batch: one for each call, in the order of the calls.
use mathlib.Core.List.{append-nil}
use coresmos.Prelude.{ℕ, ◌+◌, ◌≡◌, refl, ap, ◌∙◌, List, [], ◌∷◌, ◌++◌}
use coresmos.Errors.{Result, ok}
use coresmos.Contracts.Messages.{ToolSpec, ToolCall, ToolResult}
use coresmos.Contracts.Receipts.{BatchReceipt}
use coresmos.Contracts.Flows.{FlowDecision}
use coresmos.Contracts.Steps.{
  ExternalWorkRef, ToolBatchCommand, ToolBatchEvent, tool_result, tool_calls_recorded,
  tool_batch_completed,
}
use coresmos.Generators.{call}
use coresmos.Generators.Returning.{
  failed, Nothing, Returns, Returns-map, >>=-Returns, >>=-after-Nothing, return-Returns,
  call-Returns, check-Returns, catch-Returns, if-Returns, yield-Returns, modify-Returns,
}
use coresmos.Pipelines.Session.{RunSession, Control, ask, recording}
use coresmos.Pipelines.Completion.{failed_commit}
use coresmos.Pipelines.Tools.Outcomes.{InvocationOutcome, visible}
use coresmos.Pipelines.Tools.{
  Report, declare, progress, Waited, ended, stopped, Invoked, report, report_all, declare_all,
  raise_stopped, after_wait, invoke_call, invoke_all, record_results, run_calls, execute,
  results_of,
}

-- The results that a batch yields on its way.
unfoldable pub results_in : List ToolBatchEvent → List ToolResult
results_in [] = []
results_in (tool_result i r ∷ es) = r ∷ results_in es
results_in (_ ∷ es) = results_in es

results_in-append :
    (xs ys : List ToolBatchEvent) → results_in (xs ++ ys) ≡ results_in xs ++ results_in ys
unfolding results_in
results_in-append [] ys = refl
results_in-append (tool_result i r ∷ xs) ys = ap (λ rs. r ∷ rs) (results_in-append xs ys)
results_in-append (tool_calls_recorded i b ∷ xs) ys = results_in-append xs ys
results_in-append (tool_batch_completed i d rs b ∷ xs) ys = results_in-append xs ys
results_in-append (ToolBatchEvent.tool_progress i c p ∷ xs) ys = results_in-append xs ys
results_in-append (ToolBatchEvent.external_work_declared i w ∷ xs) ys = results_in-append xs ys

abbrev NoResult : {A : Type 0} → List ToolBatchEvent → A → Type 0
NoResult es a = results_in es ≡ []

none-append :
    (xs ys : List ToolBatchEvent)
    → results_in xs ≡ []
    → results_in ys ≡ []
    → results_in (xs ++ ys) ≡ []
none-append xs ys e f = results_in-append xs ys ∙ rw (e, f) refl

module _ (validate_tool_call : ToolSpec → ToolCall → Result (Unit {0})) (control : Control)
    (invoke : ℕ → ToolCall → Invoked)
    (policy : List InvocationOutcome → RunSession → Result FlowDecision × RunSession)
    (command : ToolBatchCommand) where
  -- From a position on, each call was run to its end, and its outcome is kept as the policy for
  -- visible errors makes it.
  pub data Answers : ℕ → List ToolCall → List InvocationOutcome → Type 0 where
    all_answered : (n : ℕ) → Answers n [] []
    answered :
        {n : ℕ} {c : ToolCall} {cs : List ToolCall} {outcomes : List InvocationOutcome}
        (outcome : InvocationOutcome)
        → (invoke n c).waited ≡ ended (ok outcome)
        → Answers (n + 1) cs outcomes
        → Answers n (c ∷ cs) (visible outcome ∷ outcomes)

  -- The events of a batch that returned: the commit of the calls is the first, the decision with the
  -- results is the last, and those results are what is yielded between them.
  pub record IsAnswered (events : List ToolBatchEvent) : Type 0 where
    pub outcomes : List InvocationOutcome
    pub answers : Answers 0 command.calls outcomes
    pub receipt : BatchReceipt
    pub decision : FlowDecision
    pub between : List ToolBatchEvent
    pub in_order :
        events
        ≡ tool_calls_recorded command.identity receipt ∷ between
          ++ tool_batch_completed command.identity decision
              (results_of validate_tool_call control invoke policy command outcomes)
              receipt
            ∷ []
    pub same_results :
        results_in between ≡ results_of validate_tool_call control invoke policy command outcomes

  report-NoResult :
      (c : ToolCall) (r : Report)
      → Returns NoResult (report validate_tool_call control invoke policy command c r)
  unfolding report results_in
  report-NoResult c (declare work) =
      >>=-after-Nothing (modify-Returns _ refl) (λ _. yield-Returns _ refl)
  report-NoResult c (progress payload) = yield-Returns _ refl

  report_all-NoResult :
      (c : ToolCall) (rs : List Report)
      → Returns NoResult (report_all validate_tool_call control invoke policy command c rs)
  unfolding report_all results_in
  report_all-NoResult c [] = return-Returns _ refl
  report_all-NoResult c (r ∷ rs) =
      >>=-Returns _
        (λ xs _ e. Returns-map (λ ys _ f. none-append xs ys e f) (report_all-NoResult c rs))
        (report-NoResult c r)

  abbrev IsResult : Waited → List ToolBatchEvent → InvocationOutcome → Type 0
  IsResult w es o = (results_in es ≡ []) × (w ≡ ended (ok o))

  declare_all-Nothing :
      (ws : List ExternalWorkRef)
      → Returns Nothing (declare_all validate_tool_call control invoke policy command ws)
  declare_all-Nothing [] = return-Returns _ refl
  declare_all-Nothing (w ∷ ws) =
      >>=-after-Nothing (modify-Returns _ refl) (λ _. declare_all-Nothing ws)

  after_wait-IsResult :
      (w : Waited) (late : List ExternalWorkRef)
      → Returns (IsResult w) (after_wait validate_tool_call control invoke policy command w late)
  unfolding raise_stopped call results_in
  after_wait-IsResult (ended r) late = check-Returns r (λ a e. (refl, ap ended e))
  after_wait-IsResult stopped late =
      >>=-after-Nothing (declare_all-Nothing late) (λ _. record { post = λ s. failed [] _ s })

  invoke_call-IsResult :
      (c : ToolCall) (i : Invoked)
      → Returns
          (IsResult i.waited)
          (invoke_call validate_tool_call control invoke policy command c i)
  unfolding invoke_call
  invoke_call-IsResult c i =
      >>=-Returns _
        (λ xs _ e.
          Returns-map (λ ys o (f, w). (none-append xs ys e f, w))
            (after_wait-IsResult i.waited i.late))
        (report_all-NoResult c i.reports)

  invoke_all-Answers :
      (n : ℕ) (cs : List ToolCall)
      → Returns
          (λ es os.
            (results_in es ≡ results_of validate_tool_call control invoke policy command os)
            × Answers n cs os)
          (invoke_all validate_tool_call control invoke policy command n cs)
  unfolding invoke_all ask results_in
  invoke_all-Answers n [] = return-Returns _ (refl, all_answered n)
  invoke_all-Answers n (c ∷ cs) = >>=-after-Nothing (call-Returns _ (λ _. refl)) (λ _.
      >>=-Returns _
        (λ xs o (e, w).
          >>=-Returns {P = λ ys _. ys ≡ tool_result command.identity (visible o).result ∷ []} _
            (λ ys _ f.
              >>=-Returns _
                (λ zs os (g, h). return-Returns _ (one_call xs zs e f g, answered o w h))
                (invoke_all-Answers (n + 1) cs))
            (yield-Returns _ refl))
        (invoke_call-IsResult c (invoke n c)))
    where
      one_call :
          {rs : List ToolResult} {r : ToolResult} (xs zs : List ToolBatchEvent)
          {ys : List ToolBatchEvent}
          → results_in xs ≡ []
          → ys ≡ tool_result command.identity r ∷ []
          → results_in zs ≡ rs
          → results_in (xs ++ (ys ++ (zs ++ []))) ≡ r ∷ rs
      one_call xs zs e f g = rw (f, append-nil zs) (results_in-append xs _ ∙ rw (e, g) refl)

  record_results-Nothing :
      (receipt : BatchReceipt) (os : List InvocationOutcome)
      → Returns Nothing (record_results validate_tool_call control invoke policy command receipt os)
  unfolding record_results recording
  record_results-Nothing receipt os =
      if-Returns receipt.recording_required _ _
        (>>=-after-Nothing (call-Returns _ (λ _. refl)) (λ _. return-Returns _ refl))
        (return-Returns _ refl)

  -- A tool batch that returned ran every call to its end, in the order of the calls. Its first event is
  -- the commit of the calls and its last one the decision; the results that it yields in between
  -- are those of the calls, one for each and in their order, and the decision carries the same.
  pub execute-IsAnswered :
      Returns
        (λ events _. IsAnswered events)
        (execute validate_tool_call control invoke policy command)
  unfolding execute run_calls ask recording
  execute-IsAnswered = >>=-after-Nothing (call-Returns _ (λ _. refl)) (λ _.
      >>=-after-Nothing (call-Returns _ (λ _. refl)) (λ _.
        >>=-after-Nothing (call-Returns _ (λ _. refl)) (λ receipt.
          >>=-Returns {P = λ xs _. xs ≡ tool_calls_recorded command.identity receipt ∷ []} _
            (λ xs _ e.
              >>=-Returns _
                (λ ys os (f, answers). >>=-after-Nothing (record_results-Nothing receipt os) (λ _.
                  >>=-after-Nothing (catch-Returns failed_commit (call-Returns _ (λ _. refl))) (λ d.
                    yield-Returns _ (record {
                      outcomes = os;
                      answers = answers;
                      receipt = receipt;
                      decision = d;
                      between = ys;
                      in_order = rw e refl;
                      same_results = f;
                    }))))
                (invoke_all-Answers 0 command.calls))
            (yield-Returns _ refl))))
