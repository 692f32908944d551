-- ===== src/Pipelines/Model/Serving.antt =====
-- What the loop reads of a model step.
use coresmos.Prelude.{
  ℕ, zero, suc, ◌+◌, ◌==◌, refl, Bool, true, false, ◌&&◌, not, none, some, List, [], ◌∷◌, Option,
}
use mathlib.Core.Bool.{true≢false}
use coresmos.Errors.{Error, adapter_error}
use coresmos.Contracts.Receipts.{MessageReceipt}
use coresmos.Contracts.Steps.{
  PreparedStep, ModelResult, ModelStepEvent, model_completed, is_effective,
}
use coresmos.Loop.Streams.{ManagedEventStream}
use coresmos.Generators.{return}
use coresmos.Pipelines.Session.{RunSession, Control, ask, recording, reserving}
use coresmos.Pipelines.Protocol.{
  Speaks, Quiet, Served, Said-Served, >>=-Speaks, >>=-over, return-Speaks, throw-Speaks,
  yield-Quiet, yield-Speaks, call-Quiet, if-Speaks,
}
use coresmos.Pipelines.Model.{
  LowEvent, text, reasoning, completed, unsupported, Attempt, new_attempt, on_event, on_failure,
  at_end, is_pending, read_events, commit_result, commit_pending, finish_attempt, run_attempt,
  attempts_from, stream,
}

-- `isinstance(event, ModelCompleted)`
abbrev pub is_model_completed : ModelStepEvent → Bool
is_model_completed (model_completed i r receipt) = true
is_model_completed _ = false

module _ (is_space : ℕ → Bool) (control : Control) (step : PreparedStep) where
  module _ (attempt : ℕ) where
    on_event-Quiet :
        (e : LowEvent) (a : Attempt)
        → Quiet is_model_completed (on_event is_space control step attempt e a)
    unfolding on_event recording
    on_event-Quiet (text t) a =
        >>=-Speaks is_model_completed (call-Quiet is_model_completed _) (λ r.
          >>=-Speaks is_model_completed (yield-Quiet is_model_completed _ refl)
            (λ _. return-Speaks is_model_completed _ refl))
    on_event-Quiet (reasoning t) a =
        >>=-Speaks is_model_completed (yield-Quiet is_model_completed _ refl)
          (λ _. return-Speaks is_model_completed _ refl)
    on_event-Quiet (completed r) a =
        if-Speaks is_model_completed (is_effective is_space r) _ _
          (return-Speaks is_model_completed _ refl) (return-Speaks is_model_completed _ refl)
    on_event-Quiet unsupported a = throw-Speaks is_model_completed _

    on_failure-Quiet :
        (a : Attempt) (e : Error)
        → Quiet is_model_completed (on_failure is_space control step attempt a e)
    on_failure-Quiet a adapter_error =
        if-Speaks is_model_completed
          (a.emitted_output && not step.request.recovery.retry_partial_output) _ _
          (throw-Speaks is_model_completed _) (return-Speaks is_model_completed _ refl)
    on_failure-Quiet a _ = throw-Speaks is_model_completed _

    at_end-Quiet :
        (a : Attempt) (failure : Option Error)
        → Quiet is_model_completed (at_end is_space control step attempt a failure)
    at_end-Quiet a none = return-Speaks is_model_completed _ refl
    at_end-Quiet a (some e) = on_failure-Quiet a e

    read_events-Quiet :
        (es : List LowEvent) (failure : Option Error) (a : Attempt)
        → Quiet is_model_completed (read_events is_space control step attempt es failure a)
    unfolding read_events
    read_events-Quiet [] failure a = at_end-Quiet a failure
    read_events-Quiet (e ∷ es) failure a =
        if-Speaks is_model_completed (is_pending a.pending) _ _ (throw-Speaks is_model_completed _)
          (>>=-Speaks is_model_completed (on_event-Quiet e a)
            (λ a'. read_events-Quiet es failure a'))

    abbrev is_done : Bool → Bool
    is_done b = b

    commit_result-Speaks :
        (r : ModelResult) (previous : Option MessageReceipt)
        → Speaks is_model_completed is_done (commit_result is_space control step attempt r previous)
    unfolding commit_result recording
    commit_result-Speaks r previous =
        >>=-Speaks is_model_completed (call-Quiet is_model_completed _) (λ receipt.
          >>=-over is_model_completed {done = λ _. true} (λ _. return true)
            (λ a s e. (true, s, unfold return in refl, refl)) (λ a e. absurd (true≢false e))
            (yield-Speaks is_model_completed _ refl refl))

    commit_pending-Speaks :
        (previous : Option MessageReceipt) (r : Option ModelResult)
        → Speaks is_model_completed is_done
            (commit_pending is_space control step attempt previous r)
    commit_pending-Speaks previous none = return-Speaks is_model_completed false refl
    commit_pending-Speaks previous (some r) = commit_result-Speaks r previous

    run_attempt-Speaks :
        (low : ManagedEventStream LowEvent)
        → Speaks is_model_completed is_done (run_attempt is_space control step attempt low)
    unfolding run_attempt
    run_attempt-Speaks low =
        >>=-Speaks is_model_completed (read_events-Quiet low.items low.failure new_attempt) finished
      where
        finished :
            (a : Option Attempt)
            → Speaks is_model_completed is_done (finish_attempt is_space control step attempt a)
        finished none = return-Speaks is_model_completed false refl
        finished (some a) = commit_pending-Speaks a.previous a.pending

  module _ (model : ℕ → ManagedEventStream LowEvent) where
    attempts_from-Speaks :
        (left attempt : ℕ)
        → Speaks is_model_completed
            (λ _. true)
            (attempts_from is_space control step model left attempt)
    unfolding attempts_from ask reserving
    attempts_from-Speaks zero attempt = throw-Speaks is_model_completed _
    attempts_from-Speaks (suc left) attempt =
        >>=-Speaks is_model_completed (call-Quiet is_model_completed _) (λ _.
          >>=-Speaks is_model_completed (call-Quiet is_model_completed _) (λ _.
            >>=-over is_model_completed {done = λ b. b} _
              (λ a s e. (tt, s, unfold return in rw e refl, refl))
              (λ a e. rw e (
                if-Speaks is_model_completed (left == 0) _ _ (throw-Speaks is_model_completed _) (
                  >>=-Speaks is_model_completed (call-Quiet is_model_completed _)
                    (λ _. attempts_from-Speaks left (attempt + 1)))))
              (run_attempt-Speaks attempt (model attempt))))

    -- The loop reads a model step that returned as its completion and all its events, and one that
    -- raised as that exception before any completion, whatever the model streams.
    pub stream-Served :
        (s : RunSession) → Served is_model_completed (stream is_space control step model s)
    unfolding stream
    stream-Served s = Said-Served is_model_completed (
        (if-Speaks is_model_completed (step.request.recovery.remaining_attempts == 0) _ _
            (throw-Speaks is_model_completed _)
            (attempts_from-Speaks step.request.recovery.remaining_attempts 1)).said
          s)
