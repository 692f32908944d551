-- ===== src/Pipelines/Model/Keeping.antt =====
-- Reading the events of an attempt keeps the transcript valid.
use coresmos.Prelude.{ℕ, Bool, Option, none, some, List, [], ◌∷◌, ◌&&◌, not}
use coresmos.Errors.{Error, adapter_error}
use coresmos.Contracts.Steps.{PreparedStep, is_effective}
use coresmos.Recording.Safe.{record_text_delta-IsSafe}
use coresmos.Generators.{if-Relates}
use coresmos.Pipelines.Session.{Control}
use coresmos.Pipelines.Keeping.{
  IsKeeping, >>=-IsKeeping, recording-IsKeeping, return-IsKeeping, throw-IsKeeping, yield-IsKeeping,
}
use coresmos.Pipelines.Model.{
  LowEvent, text, reasoning, completed, unsupported, Attempt, on_event, at_end, read_events,
  on_failure, is_pending,
}

module _ (is_space : ℕ → Bool) (control : Control) (step : PreparedStep) where
  module _ (attempt : ℕ) where
    on_event-IsKeeping :
        (e : LowEvent) (a : Attempt) → IsKeeping (on_event is_space control step attempt e a)
    unfolding on_event
    on_event-IsKeeping (text t) a =
        >>=-IsKeeping (recording-IsKeeping (record_text_delta-IsSafe _ _ _ _ _ _ _))
          (λ r. >>=-IsKeeping (yield-IsKeeping _) (λ _. (return-IsKeeping _)))
    on_event-IsKeeping (reasoning t) a =
        >>=-IsKeeping (yield-IsKeeping _) (λ _. (return-IsKeeping _))
    on_event-IsKeeping (completed r) a =
        if-Relates (is_effective is_space r) _ _ (return-IsKeeping _) (return-IsKeeping _)
    on_event-IsKeeping unsupported a = (throw-IsKeeping _)

    on_failure-IsKeeping :
        (a : Attempt) (e : Error) → IsKeeping (on_failure is_space control step attempt a e)
    on_failure-IsKeeping a adapter_error =
        if-Relates (a.emitted_output && not step.request.recovery.retry_partial_output) _ _
          (throw-IsKeeping _) (return-IsKeeping _)
    on_failure-IsKeeping a _ = (throw-IsKeeping _)

    at_end-IsKeeping :
        (a : Attempt) (failure : Option Error)
        → IsKeeping (at_end is_space control step attempt a failure)
    at_end-IsKeeping a none = (return-IsKeeping _)
    at_end-IsKeeping a (some e) = on_failure-IsKeeping a e

    pub read_events-IsKeeping :
        (es : List LowEvent) (failure : Option Error) (a : Attempt)
        → IsKeeping (read_events is_space control step attempt es failure a)
    unfolding read_events
    read_events-IsKeeping [] failure a = at_end-IsKeeping a failure
    read_events-IsKeeping (e ∷ es) failure a =
        if-Relates (is_pending a.pending) _ _ (throw-IsKeeping _)
          (>>=-IsKeeping (on_event-IsKeeping e a) (λ a'. read_events-IsKeeping es failure a'))
