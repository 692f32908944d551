-- ===== src/Runner/Terminal.antt =====
-- Every run of src/agent_runtime/runner.py concludes.
use coresmos.Prelude.{
  ◌≡◌, ℕ, ◌+◌, refl, Bool, true, false, if◌then◌else◌, none, some, List, [], ◌∷◌, inl, inr,
  Bool-cases,
}
use coresmos.Errors.{Error, Result, ok, task_cancelled, cancelled_run_error}
use coresmos.Contracts.Enums.{RunStatus}
use coresmos.Contracts.Messages.{Message}
use coresmos.Recording.Store.{MemoryTranscript}
use coresmos.Recording.Facts.{Kept, Ends, raised, returned}
use coresmos.Recording.Runs.{finalize_run}
use coresmos.Recording.Finalized.{IsFinalized, finalize_run-IsFinalized}
use coresmos.Loop.Turns.{RuntimeEvent}
use coresmos.Loop.Streams.{has_none}
use coresmos.Generators.{◌>>=◌, resume, return, yield, call, check, modify}
use coresmos.Runner.Conclusions.{
  announced, Concluded, passed_on, unseen, announced_last, Concludes, IsCalm, catch-Concludes,
  throw-Concludes, >>=-Concludes, >>=-IsCalm,
}
use coresmos.Runner.{
  RunEvent, loop_event, run_succeeded, RunnerState, Pulled, RunSetup, Closed, RunGenerator,
  on_transcript, conclude, conclude_once, conclude_waiting, succeed, record_inputs, on_loop_event,
  run_loop, body, on_exception, on_setup_exception, run,
}

module _ {X : Type 0} (closed : Closed) (setup : RunSetup X) where
  yield-IsCalm :
      (event : RunEvent X)
      → announced event ≡ none
      → IsCalm {X = X} closed setup.run_id (yield event)
  unfolding yield has_none
  yield-IsCalm event h = record {
    calmed = λ s f. record { no_terminal = rw h refl; none_before = f };
  }

  -- A call, a check or a change that leaves the flag.
  call-IsCalm :
      {A : Type 0} (f : RunnerState → Result A × RunnerState)
      → ((s : RunnerState) → (f s).1.yielded_terminal ≡ s.yielded_terminal)
      → IsCalm {X = X} closed setup.run_id (call f)
  unfolding call has_none
  call-IsCalm f h = record {
    calmed = λ s e. record { no_terminal = refl; none_before = rw (h s) e };
  }

  check-IsCalm : {A : Type 0} (r : Result A) → IsCalm {X = X} closed setup.run_id (check r)
  unfolding check has_none
  check-IsCalm r = record { calmed = λ s e. record { no_terminal = refl; none_before = e } }

  modify-IsCalm :
      (f : RunnerState → RunnerState)
      → ((s : RunnerState) → (f s).yielded_terminal ≡ s.yielded_terminal)
      → IsCalm {X = X} closed setup.run_id (modify f)
  unfolding modify has_none
  modify-IsCalm f h = record {
    calmed = λ s e. record { no_terminal = refl; none_before = rw (h s) e };
  }

  return-IsCalm : {A : Type 0} (a : A) → IsCalm {X = X} closed setup.run_id (return a)
  unfolding return has_none
  return-IsCalm a = record { calmed = λ s e. record { no_terminal = refl; none_before = e } }

  -- The commit, behind which the event is yielded or the consumer had closed.
  abbrev Committed : RunStatus → MemoryTranscript → Result (Unit {0}) × MemoryTranscript → Type 0
  Committed status t r = Ends (Kept t) (λ _ t'. IsFinalized setup.run_id status t') r

  commit_from :
      {status : RunStatus} {r : Result (Unit {0}) × MemoryTranscript}
      (rest : RunGenerator closed setup (Unit {0})) (s : RunnerState)
      → s.yielded_terminal ≡ false
      → ((t : MemoryTranscript)
          → IsFinalized setup.run_id status t
          → Concluded closed setup.run_id (rest (record s { transcript = t })))
      → Committed status s.transcript r
      → Concluded closed setup.run_id (resume ([], r.0, record s { transcript = r.1 }) (λ _. rest))
  unfolding has_none
  commit_from rest s f k (raised e t h) = passed_on [] e (record s { transcript = t }) refl f
  commit_from rest s f k (returned a t h) = k t h

  -- A commit of the run's end, and what follows where it returned.
  commit-Concludes :
      (status : RunStatus) (rest : RunGenerator closed setup (Unit {0}))
      → ((s : RunnerState)
          → s.yielded_terminal ≡ false
          → IsFinalized setup.run_id status s.transcript
          → Concluded closed setup.run_id (rest s))
      → Concludes closed setup.run_id
          (on_transcript closed setup (finalize_run setup.run_id status) >>= λ _. rest)
  unfolding ◌>>=◌ call
  commit-Concludes status rest k = record {
    concluded = λ s f.
        commit_from rest s f (λ t h. k (record s { transcript = t }) f h)
          (finalize_run-IsFinalized setup.run_id status s.transcript);
  }

  unseen_end :
      (s : RunnerState) (n : ℕ)
      → closed n ≡ true
      → Concluded {X = X} closed setup.run_id ([], ok tt, s)
  unseen_end s n c = unseen [] tt s n (unfold has_none in refl) c

  module _ (status : RunStatus) (event : RunEvent X) (h : announced event ≡ some status) where
    seen_end :
        (s : RunnerState)
        → IsFinalized setup.run_id status s.transcript
        → Concluded closed setup.run_id (event ∷ [], ok tt, s)
    seen_end s g = announced_last [] event status tt s (unfold has_none in refl) h g

    conclude-Concludes : Concludes closed setup.run_id (conclude closed setup status event)
    unfolding conclude ◌>>=◌ call modify yield return
    conclude-Concludes = commit-Concludes status _ (λ s f g. elim (Bool-cases (closed s.asked)) [
      | inl c ↦ rw c (unseen_end _ s.asked c)
      | inr c ↦ rw c (seen_end _ g)
    ])

    conclude_once-Concludes :
        Concludes closed setup.run_id (conclude_once closed setup status event)
    unfolding conclude_once ◌>>=◌ call modify yield return
    conclude_once-Concludes = commit-Concludes status _ (λ s f g.
        elim (Bool-cases (closed s.asked)) [
          | inl c ↦ rw c (unseen_end _ s.asked c)
          | inr c ↦ rw (c, f) (seen_end _ g)
        ])

  conclude_waiting-Concludes :
      (event : RuntimeEvent X)
      → announced (loop_event event) ≡ some RunStatus.waiting
      → Concludes closed setup.run_id (conclude_waiting closed setup event)
  unfolding conclude_waiting ◌>>=◌ call modify yield return
  conclude_waiting-Concludes event h = commit-Concludes RunStatus.waiting _ (λ s f g.
      elim (Bool-cases (closed s.asked)) [
        | inl c ↦ rw c (unseen_end _ s.asked c)
        | inr c ↦ rw c (seen_end RunStatus.waiting (loop_event event) h _ g)
      ])

  succeed-Concludes : Concludes closed setup.run_id (succeed closed setup)
  unfolding succeed
  succeed-Concludes = conclude-Concludes RunStatus.succeeded (run_succeeded setup.run_id) refl

  record_inputs-IsCalm :
      (n : ℕ) (ms : List Message) → IsCalm closed setup.run_id (record_inputs closed setup n ms)
  unfolding record_inputs
  record_inputs-IsCalm n [] = return-IsCalm _
  record_inputs-IsCalm n (m ∷ ms) =
      >>=-IsCalm closed setup.run_id (call-IsCalm _ (λ s. refl))
        (λ _. record_inputs-IsCalm (n + 1) ms)

  on_loop_event-Concludes :
      (event : RuntimeEvent X) (rest : RunGenerator closed setup (Unit {0}))
      → Concludes closed setup.run_id rest
      → Concludes closed setup.run_id (on_loop_event closed setup event rest)
  on_loop_event-Concludes (RuntimeEvent.run_waiting i p d) rest h =
      conclude_waiting-Concludes (RuntimeEvent.run_waiting i p d) refl
  on_loop_event-Concludes (RuntimeEvent.progress x) rest h =
      >>=-Concludes closed setup.run_id (yield-IsCalm _ refl) (λ _. h)
  on_loop_event-Concludes (RuntimeEvent.step_started i p) rest h =
      >>=-Concludes closed setup.run_id (yield-IsCalm _ refl) (λ _. h)
  on_loop_event-Concludes (RuntimeEvent.model_completed r) rest h =
      >>=-Concludes closed setup.run_id (yield-IsCalm _ refl) (λ _. h)
  on_loop_event-Concludes (RuntimeEvent.tool_batch_completed d) rest h =
      >>=-Concludes closed setup.run_id (yield-IsCalm _ refl) (λ _. h)
  on_loop_event-Concludes (RuntimeEvent.completion_completed d) rest h =
      >>=-Concludes closed setup.run_id (yield-IsCalm _ refl) (λ _. h)

  if-Concludes :
      (b : Bool) (m n : RunGenerator closed setup (Unit {0}))
      → Concludes closed setup.run_id m
      → Concludes closed setup.run_id n
      → Concludes closed setup.run_id (if b then m else n)
  if-Concludes true m n h k = h
  if-Concludes false m n h k = k

  run_loop-Concludes :
      (ps : List (Pulled X)) → Concludes closed setup.run_id (run_loop closed setup ps)
  unfolding run_loop
  run_loop-Concludes [] =
      >>=-Concludes closed setup.run_id (modify-IsCalm _ (λ s. refl))
        (λ _. >>=-Concludes closed setup.run_id (check-IsCalm _) (λ _. succeed-Concludes))
  run_loop-Concludes (p ∷ ps) =
      >>=-Concludes closed setup.run_id (modify-IsCalm _ (λ s. refl)) (λ _.
        >>=-Concludes closed setup.run_id (call-IsCalm _ (λ s. refl)) (λ gone.
          if-Concludes gone _ _ succeed-Concludes
            (on_loop_event-Concludes p.event _ (run_loop-Concludes ps))))

  body-Concludes : Concludes closed setup.run_id (body closed setup)
  unfolding body
  body-Concludes = >>=-Concludes closed setup.run_id (yield-IsCalm _ refl) (λ _.
      >>=-Concludes closed setup.run_id (record_inputs-IsCalm 0 setup.input_items) (λ _.
        if-Concludes setup.completed_entry _ _ succeed-Concludes
          (run_loop-Concludes setup.loop.pulled)))

  on_setup_exception-Concludes :
      (e : Error) → Concludes closed setup.run_id (on_setup_exception closed setup e)
  unfolding on_setup_exception
  on_setup_exception-Concludes task_cancelled = throw-Concludes closed setup.run_id _
  on_setup_exception-Concludes (cancelled_run_error reason) = conclude_once-Concludes _ _ refl
  on_setup_exception-Concludes _ = conclude_once-Concludes _ _ refl

  on_exception-Concludes : (e : Error) → Concludes closed setup.run_id (on_exception closed setup e)
  unfolding on_exception
  on_exception-Concludes task_cancelled =
      >>=-Concludes closed setup.run_id (call-IsCalm _ (λ s. refl))
        (λ _. throw-Concludes closed setup.run_id _)
  on_exception-Concludes (cancelled_run_error reason) = conclude_once-Concludes _ _ refl
  on_exception-Concludes _ = conclude_once-Concludes _ _ refl

  -- A run that has yielded no terminal event before yields at most one, as its last event and behind
  -- the commit of the status that it announces. Without one, an exception leaves the run or the
  -- consumer had closed, whatever the host, the loop and the transcript do.
  pub run-Concludes : Concludes closed setup.run_id (run closed setup)
  unfolding run
  run-Concludes =
      catch-Concludes closed setup.run_id
        (>>=-Concludes closed setup.run_id (check-IsCalm _) (λ resolution.
          >>=-Concludes closed setup.run_id (check-IsCalm _) (λ snapshot.
            >>=-Concludes closed setup.run_id (check-IsCalm _)
              (λ _. catch-Concludes closed setup.run_id body-Concludes on_exception-Concludes))))
        on_setup_exception-Concludes
