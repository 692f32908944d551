-- ===== src/Pipelines/Model/Committing.antt =====
-- The last event of a model step, and the commit behind it.
use coresmos.Prelude.{
  ℕ, zero, suc, ◌+◌, ◌==◌, ◌≡◌, refl, sym, ap, ◌∙◌, Bool, true, false, not, ◌&&◌, if◌then◌else◌,
  Option, none, some, List, [], ◌∷◌, ◌++◌,
}
use mathlib.Core.List.{append_assoc, append-nil}
use coresmos.Errors.{Error, Result, ok, raise, adapter_error}
use coresmos.Contracts.Receipts.{MessageReceipt}
use coresmos.Contracts.Steps.{
  PreparedStep, ModelResult, ModelStepEvent, model_completed, is_effective,
}
use coresmos.Recording.Store.{MemoryTranscript}
use coresmos.Recording.Operations.{record_text_final}
use coresmos.Recording.Facts.{IsValid}
use coresmos.Loop.Streams.{ManagedEventStream}
use coresmos.Generators.{Generator, ◌>>=◌, resume, call, yield, return, throw}
use coresmos.Generators.Returning.{
  Returns, >>=-Returns, return-Returns, throw-Returns, call-Returns, if-Returns, yield-Returns,
}
use coresmos.Generators.Reaching.{
  Reached, raised, reached, Reached-map, Reached-state, >>=-Reached, Returns-Reached, if-Reached,
}
use coresmos.Pipelines.Session.{RunSession, Control, recording}
use coresmos.Pipelines.Keeping.{IsKeeping, ask-IsKeeping, reserving-IsKeeping}
use coresmos.Pipelines.Model.{
  LowEvent, text, reasoning, completed, unsupported, Attempt, on_event, on_failure, read_events,
  commit_result, commit_pending, finish_attempt, run_attempt, attempts_from, stream, is_pending,
  new_attempt, final_op,
}
use coresmos.Pipelines.Model.Keeping.{read_events-IsKeeping}

module _ (is_space : ℕ → Bool) (control : Control) (step : PreparedStep) where
  -- The last event completes the step with a result whose final text was just committed.
  pub record IsCommitted (events : List ModelStepEvent) (s : RunSession) : Type 0 where
    pub result : ModelResult
    pub receipt : MessageReceipt
    pub earlier : List ModelStepEvent
    pub ends_with : events ≡ earlier ++ model_completed step.identity result (some receipt) ∷ []
    pub previous : Option MessageReceipt
    pub before : MemoryTranscript
    pub valid : IsValid before
    pub recorded :
        record_text_final step.identity.run_id step.identity.step_no step.record_target result.text
          result.reasoning result.tool_calls
          (final_op step result.attempt)
          result.attempt
          previous
          before
        ≡ (ok receipt, s.transcript)

  later-IsCommitted :
      (xs ys : List ModelStepEvent) (s : RunSession) → IsCommitted ys s → IsCommitted (xs ++ ys) s
  later-IsCommitted xs ys s c = record {
    result = c.result;
    receipt = c.receipt;
    earlier = xs ++ c.earlier;
    ends_with = ap (λ es. xs ++ es) c.ends_with ∙ sym (append_assoc xs c.earlier _);
    previous = c.previous;
    before = c.before;
    valid = c.valid;
    recorded = c.recorded;
  }

  module _ (attempt : ℕ) where
    -- A result that waits for its commit is of this attempt.
    abbrev OfAttempt : Option ModelResult → Type 0
    OfAttempt none = Unit {0}
    OfAttempt (some r) = r.attempt ≡ attempt

    abbrev EndsAttempt : Option Attempt → Type 0
    EndsAttempt none = Unit {0}
    EndsAttempt (some a) = OfAttempt a.pending

    on_event-OfAttempt :
        (e : LowEvent) (a : Attempt)
        → OfAttempt a.pending
        → Returns
            (λ _ (a' : Attempt). OfAttempt a'.pending)
            (on_event is_space control step attempt e a)
    unfolding on_event recording
    on_event-OfAttempt (text t) a h =
        >>=-Returns {P = λ _ _. Unit {0}} _
          (λ _ receipt _.
            >>=-Returns {P = λ _ _. Unit {0}} _ (λ _ _ _. return-Returns _ h) (yield-Returns _ tt))
          (call-Returns _ (λ _. tt))
    on_event-OfAttempt (reasoning t) a h =
        >>=-Returns {P = λ _ _. Unit {0}} _ (λ _ _ _. return-Returns _ h) (yield-Returns _ tt)
    on_event-OfAttempt (completed r) a h =
        if-Returns (is_effective is_space r) _ _ (return-Returns _ refl) (return-Returns _ tt)
    on_event-OfAttempt unsupported a h = throw-Returns _

    on_failure-EndsAttempt :
        (a : Attempt) (e : Error)
        → Returns (λ _ o. EndsAttempt o) (on_failure is_space control step attempt a e)
    on_failure-EndsAttempt a adapter_error =
        if-Returns (a.emitted_output && not step.request.recovery.retry_partial_output) _ _
          (throw-Returns _) (return-Returns _ tt)
    on_failure-EndsAttempt a _ = throw-Returns _

    read_events-EndsAttempt :
        (es : List LowEvent) (failure : Option Error) (a : Attempt)
        → OfAttempt a.pending
        → Returns (λ _ o. EndsAttempt o) (read_events is_space control step attempt es failure a)
    unfolding read_events
    read_events-EndsAttempt [] none a h = return-Returns _ h
    read_events-EndsAttempt [] (some e) a h = on_failure-EndsAttempt a e
    read_events-EndsAttempt (e ∷ es) failure a h =
        if-Returns (is_pending a.pending) _ _ (throw-Returns _) (
          >>=-Returns _ (λ _ a' k. read_events-EndsAttempt es failure a' k)
            (on_event-OfAttempt e a h))

    -- An attempt that completed has committed its result.
    abbrev IfCompleted : List ModelStepEvent → Bool → RunSession → Type 0
    IfCompleted events true s = IsCommitted events s
    IfCompleted events false s = IsValid s.transcript

    commit_result-IsCommitted :
        (r : ModelResult) (previous : Option MessageReceipt) (s : RunSession)
        → r.attempt ≡ attempt
        → IsValid s.transcript
        → Reached IfCompleted (commit_result is_space control step attempt r previous s)
    unfolding commit_result recording ◌>>=◌ call yield return
    commit_result-IsCommitted r previous s h v = by_result _ refl
      where
        record_it : MemoryTranscript → Result MessageReceipt × MemoryTranscript
        record_it =
            record_text_final step.identity.run_id step.identity.step_no step.record_target r.text
              r.reasoning r.tool_calls (final_op step attempt) attempt previous

        by_result :
            (q : Result MessageReceipt × MemoryTranscript)
            → record_it s.transcript ≡ q
            → Reached IfCompleted (
                resume
                  ([], q.0, record s { transcript = q.1 })
                  (λ receipt.
                    yield (model_completed step.identity r (some receipt)) >>= λ _. return true))
        by_result (raise e, t) p = raised _ _ _
        by_result (ok receipt, t) p = reached _ _ _ (record {
          result = r;
          receipt = receipt;
          earlier = [];
          ends_with = refl;
          previous = previous;
          before = s.transcript;
          valid = v;
          recorded = rw h p;
        })

    finish_attempt-IfCompleted :
        (o : Option Attempt) (s : RunSession)
        → EndsAttempt o
        → IsValid s.transcript
        → Reached IfCompleted (finish_attempt is_space control step attempt o s)
    unfolding return
    finish_attempt-IfCompleted none s h v = reached _ _ _ v
    finish_attempt-IfCompleted (some a) s h v = by_pending a.pending h
      where
        by_pending :
            (r : Option ModelResult)
            → OfAttempt r
            → Reached IfCompleted (commit_pending is_space control step attempt a.previous r s)
        by_pending none k = reached _ _ _ v
        by_pending (some r) k = commit_result-IsCommitted r a.previous s k v

    run_attempt-IfCompleted :
        (low : ManagedEventStream LowEvent) (s : RunSession)
        → IsValid s.transcript
        → Reached IfCompleted (run_attempt is_space control step attempt low s)
    unfolding run_attempt
    run_attempt-IfCompleted low s v =
        >>=-Reached _
          (λ xs o s' (h, v').
            Reached-map (λ ys b s'' c. after xs ys b s'' c) (finish_attempt-IfCompleted o s' h v'))
          (read_events is_space control step attempt low.items low.failure new_attempt) s
          (Returns-Reached {Q = λ s'. IsValid s'.transcript} s
            (read_events-EndsAttempt low.items low.failure new_attempt tt)
            ((read_events-IsKeeping is_space control step attempt low.items low.failure
                new_attempt).ends
              s v).valid)
      where
        after :
            (xs ys : List ModelStepEvent) (b : Bool) (s' : RunSession)
            → IfCompleted ys b s'
            → IfCompleted (xs ++ ys) b s'
        after xs ys true s' c = later-IsCommitted xs ys s' c
        after xs ys false s' c = c

  module _ (model : ℕ → ManagedEventStream LowEvent) where
    -- Behind what yields events and keeps a valid transcript.
    behind_IsCommitted :
        {A : Type 0} (m : Generator RunSession ModelStepEvent A)
        (rest : A → Generator RunSession ModelStepEvent (Unit {0})) (s : RunSession)
        → IsKeeping m
        → IsValid s.transcript
        → ((a : A) (s' : RunSession)
            → IsValid s'.transcript
            → Reached (λ events _ s''. IsCommitted events s'') (rest a s'))
        → Reached (λ events _ s''. IsCommitted events s'') ((m >>= rest) s)
    behind_IsCommitted m rest s h v k =
        >>=-Reached rest
          (λ xs a s' v'. Reached-map (λ ys _ s'' c. later-IsCommitted xs ys s'' c) (k a s' v')) m s
          (Reached-state {Q = λ s'. IsValid s'.transcript} (m s) (h.ends s v).valid)

    attempts_from-IsCommitted :
        (left attempt : ℕ) (s : RunSession)
        → IsValid s.transcript
        → Reached
            (λ events _ s'. IsCommitted events s')
            (attempts_from is_space control step model left attempt s)
    unfolding attempts_from throw return
    attempts_from-IsCommitted zero attempt s v = raised _ _ _
    attempts_from-IsCommitted (suc left) attempt s v =
        behind_IsCommitted _ _ s (ask-IsKeeping control) v (λ _ s1 v1.
          behind_IsCommitted _ _ s1 (reserving-IsKeeping step.estimated_tokens) v1 (λ _ s2 v2.
            >>=-Reached _
              (λ xs b s3 c. after _ xs b s3 c (λ w.
                behind_IsCommitted _ _ s3 (ask-IsKeeping control) w
                  (λ _ s4 v4. attempts_from-IsCommitted left (attempt + 1) s4 v4)))
              (run_attempt is_space control step attempt (model attempt)) s2
              (run_attempt-IfCompleted attempt (model attempt) s2 v2)))
      where
        after :
            (again : Generator RunSession ModelStepEvent (Unit {0})) (xs : List ModelStepEvent)
            (b : Bool) (s' : RunSession)
            → IfCompleted attempt xs b s'
            → (IsValid s'.transcript → Reached (λ events _ s''. IsCommitted events s'') (again s'))
            → Reached
                (λ ys _ s''. IsCommitted (xs ++ ys) s'')
                ((if b then return tt else if left == 0 then throw adapter_error else again) s')
        after again xs true s' c k = reached _ _ _ (rw (append-nil xs) c)
        after again xs false s' v' k =
            if-Reached (left == 0) (throw adapter_error) again s' (raised _ _ _)
              (Reached-map (λ ys _ s'' c. later-IsCommitted xs ys s'' c) (k v'))

    pub stream-IsCommitted :
        (s : RunSession)
        → IsValid s.transcript
        → Reached (λ events _ s'. IsCommitted events s') (stream is_space control step model s)
    unfolding stream throw
    stream-IsCommitted s v =
        if-Reached (step.request.recovery.remaining_attempts == 0) _ _ s (raised _ _ _)
          (attempts_from-IsCommitted step.request.recovery.remaining_attempts 1 s v)
