-- ===== src/Pipelines/Completion/Serving.antt =====
-- What the loop reads of a completion, and what a completion does to the transcript.
use coresmos.Prelude.{refl, Bool, true}
use coresmos.Errors.{Result}
use coresmos.Contracts.Flows.{FlowDecision}
use coresmos.Contracts.Receipts.{MessageReceipt}
use coresmos.Contracts.Steps.{PreparedStep, ModelResult, CompletionCompleted}
use coresmos.Pipelines.Session.{RunSession, Control, ask, recording}
use coresmos.Pipelines.Protocol.{
  Served, Said-Served, >>=-Speaks, yield-Speaks, call-Quiet, check-Quiet, modify-Quiet,
}
use coresmos.Pipelines.Completion.{decide, complete}

-- Its one event is its completion.
abbrev pub is_completed : CompletionCompleted → Bool
is_completed _ = true

module _ (policy : PreparedStep → ModelResult → MessageReceipt → Result FlowDecision)
    (control : Control) (step : PreparedStep) (result : ModelResult) where
  -- The loop reads a completion phase that returned as its one event, and one that raised as that
  -- exception without an event, whatever the policy answers.
  pub complete-Served :
      (s : RunSession) → Served is_completed (complete policy control step result s)
  unfolding complete decide ask recording
  complete-Served s = Said-Served is_completed (
      (>>=-Speaks is_completed {done = λ _. true} (call-Quiet is_completed _) (λ _.
          >>=-Speaks is_completed (call-Quiet is_completed _) (λ r.
            >>=-Speaks is_completed (modify-Quiet is_completed _) (λ _.
              >>=-Speaks is_completed (check-Quiet is_completed _) (λ d.
                >>=-Speaks is_completed (check-Quiet is_completed _)
                  (λ _. yield-Speaks is_completed _ refl refl)))))).said
        s)
