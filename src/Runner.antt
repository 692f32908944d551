-- ===== src/Runner.antt =====
-- `DefaultRuntime._run` of src/agent_runtime/runner.py. What the run is set up with and what its loop
-- does are parameters; a consumer that closes the stream at a `yield` is not modelled.
pub mod Setup
pub mod Conclusions
pub mod Terminal
use coresmos.Prelude.{
  ℕ, ◌+◌, ◌||◌, if◌then◌else◌, Bool, true, false, Option, none, some, List, [], ◌∷◌, ◌++◌, Text,
  codes, decimal,
}
use coresmos.Errors.{
  Error, Result, ok, raise, is_recording_error, cancelled_run_error, task_cancelled,
}
use coresmos.Contracts.Enums.{StopReason, RunStatus}
use coresmos.Contracts.Messages.{Message}
use coresmos.Contracts.Receipts.{RecordTarget}
use coresmos.Contracts.Capabilities.{Resolution}
use coresmos.Contracts.Steps.{ExternalWorkRef}
use coresmos.Recording.Store.{MemoryTranscript, Exec}
use coresmos.Recording.Operations.{record_input}
use coresmos.Recording.Runs.{finalize_run}
use coresmos.Loop.Turns.{RuntimeEvent}
use coresmos.Generators.{Generator, ◌>>=◌, ◌>>◌, return, throw, yield, call, check, modify, catch}
use coresmos.Runner.Setup.{accept_resolution}

-- The events of a run: its start, those of the loop, and the terminal ones that it makes itself.
pub data RunEvent (X : Type 0) : Type 0 where
  run_started : Text → RecordTarget → RunEvent X
  loop_event : RuntimeEvent X → RunEvent X
  run_succeeded : Text → RunEvent X
  run_failed : Text → Error → RunEvent X
  run_cancelled : Text → StopReason → List ExternalWorkRef → RunEvent X

pub record RunnerState : Type 0 where
  pub transcript : MemoryTranscript
  pub yielded_terminal : Bool
  -- How often the control was asked whether the consumer closed.
  pub asked : ℕ

-- One step of the loop: what its phases do to the transcript before an event.
pub record Pulled (X : Type 0) : Type 0 where
  pub work : MemoryTranscript → MemoryTranscript
  pub event : RuntimeEvent X

-- The loop as the runner reads it: its events, what is done behind the last one, and how it ends.
pub record LoopRun (X : Type 0) : Type 0 where
  pub pulled : List (Pulled X)
  pub last_work : MemoryTranscript → MemoryTranscript
  pub end : Result (Unit {0})

-- What a run starts from. `prepared` is what reading the application, resolving the capabilities and
-- assembling the ports gave.
pub record RunSetup (X : Type 0) : Type 0 where
  pub run_id : Text
  pub input_items : List Message
  pub record_target : RecordTarget
  pub completed_entry : Bool
  pub prepared : Result Resolution
  pub assembled : Result (Unit {0})
  pub loop : LoopRun X
  -- The work that was declared, if the run came so far as to have a session.
  pub external_work : List ExternalWorkRef
  -- `control.first_reason` at the end.
  pub first_reason : Option StopReason

-- Whether the consumer had closed when the control was asked, by the number of times before.
abbrev pub Closed : Type 0
Closed = ℕ → Bool

abbrev reason_or : Option StopReason → StopReason → StopReason
reason_or none reason = reason
reason_or (some first) reason = first

module _ {X : Type 0} (closed : Closed) (setup : RunSetup X) where
  abbrev pub RunGenerator : Type 0 → Type 0
  RunGenerator A = Generator RunnerState (RunEvent X) A

  abbrev pub on_transcript : {A : Type 0} → Exec A → RunGenerator A
  on_transcript operation =
      call (λ s. ((operation s.transcript).0, record s { transcript = (operation s.transcript).1 }))

  abbrev pub working : (MemoryTranscript → MemoryTranscript) → RunGenerator (Unit {0})
  working work = modify (λ s. record s { transcript = work s.transcript })

  -- `control.reason_set(StopReason.CONSUMER_CLOSED)`
  abbrev pub is_closed : RunGenerator Bool
  is_closed = call (λ s. (ok (closed s.asked), record s { asked = s.asked + 1 }))

  abbrev pub has_yielded : RunGenerator Bool
  has_yielded = call (λ s. (ok s.yielded_terminal, s))

  abbrev pub mark_terminal : RunGenerator (Unit {0})
  mark_terminal = modify (λ s. record s { yielded_terminal = true })

  -- `_commit_terminal`, and the event for a consumer that is there.
  unfoldable pub conclude : RunStatus → RunEvent X → RunGenerator (Unit {0})
  unfolding finalize_run
  conclude status event = do
    on_transcript (finalize_run setup.run_id status)
    gone ← is_closed
    if gone then return tt else (mark_terminal >> yield event)

  -- The handlers' form: no second terminal event.
  unfoldable pub conclude_once : RunStatus → RunEvent X → RunGenerator (Unit {0})
  unfolding finalize_run
  conclude_once status event = do
    on_transcript (finalize_run setup.run_id status)
    gone ← is_closed
    already ← has_yielded
    if gone || already then return tt else (mark_terminal >> yield event)

  -- `RunWaiting`: the flag is set whether or not the consumer is there.
  unfoldable pub conclude_waiting : RuntimeEvent X → RunGenerator (Unit {0})
  unfolding finalize_run
  conclude_waiting event = do
    on_transcript (finalize_run setup.run_id RunStatus.waiting)
    mark_terminal
    gone ← is_closed
    if gone then return tt else yield (loop_event event)

  unfoldable pub succeed : RunGenerator (Unit {0})
  unfolding conclude
  succeed = conclude RunStatus.succeeded (run_succeeded setup.run_id)

  unfoldable pub record_inputs : ℕ → List Message → RunGenerator (Unit {0})
  unfolding record_input
  record_inputs n [] = return tt
  record_inputs n (m ∷ ms) = do
    receipt ← on_transcript (
        record_input setup.run_id setup.record_target m
          (setup.run_id ++ (codes ":input:" ++ decimal n)))
    record_inputs (n + 1) ms

  -- An event of the loop, with what is done after it.
  abbrev pub on_loop_event : RuntimeEvent X → RunGenerator (Unit {0}) → RunGenerator (Unit {0})
  on_loop_event (RuntimeEvent.run_waiting run_id p d) rest =
      conclude_waiting (RuntimeEvent.run_waiting run_id p d)
  on_loop_event (RuntimeEvent.progress x) rest =
      yield (loop_event (RuntimeEvent.progress x)) >> rest
  on_loop_event (RuntimeEvent.step_started i p) rest =
      yield (loop_event (RuntimeEvent.step_started i p)) >> rest
  on_loop_event (RuntimeEvent.model_completed r) rest =
      yield (loop_event (RuntimeEvent.model_completed r)) >> rest
  on_loop_event (RuntimeEvent.tool_batch_completed d) rest =
      yield (loop_event (RuntimeEvent.tool_batch_completed d)) >> rest
  on_loop_event (RuntimeEvent.completion_completed d) rest =
      yield (loop_event (RuntimeEvent.completion_completed d)) >> rest

  -- `async for event in loop.run(request)`, and the success behind it. A consumer that has closed ends
  -- the loop, and the run is a success.
  unfoldable pub run_loop : List (Pulled X) → RunGenerator (Unit {0})
  unfolding succeed conclude_waiting
  run_loop [] = do working setup.loop.last_work; check setup.loop.end; succeed
  run_loop (p ∷ ps) =
      let rest = run_loop ps in
      working p.work >> (is_closed >>= λ gone. if gone then succeed else on_loop_event p.event rest)

  -- The body of the inner `try`.
  unfoldable pub body : RunGenerator (Unit {0})
  unfolding record_inputs run_loop
  body = do
    yield (run_started setup.run_id setup.record_target)
    record_inputs 0 setup.input_items
    if setup.completed_entry then succeed else run_loop setup.loop.pulled

  abbrev pub fail : Error → RunGenerator (Unit {0})
  fail e = conclude_once RunStatus.failed (run_failed setup.run_id e)

  abbrev pub cancel : StopReason → RunGenerator (Unit {0})
  cancel reason =
      conclude_once RunStatus.cancelled
        (run_cancelled setup.run_id (reason_or setup.first_reason reason) setup.external_work)

  -- The handlers of the inner `try`. A failed commit invalidates the summary of its target too, which
  -- cannot raise and is no part of this state.
  unfoldable pub on_exception : Error → RunGenerator (Unit {0})
  unfolding conclude_once
  on_exception task_cancelled =
      on_transcript (finalize_run setup.run_id RunStatus.cancelled) >> throw task_cancelled
  on_exception (cancelled_run_error reason) = cancel reason
  on_exception e = fail e

  -- The handlers of the outer `try`.
  unfoldable pub on_setup_exception : Error → RunGenerator (Unit {0})
  unfolding conclude_once
  on_setup_exception task_cancelled = throw task_cancelled
  on_setup_exception (cancelled_run_error reason) = cancel reason
  on_setup_exception e = fail e

  -- `_run`, up to the clean-up.
  unfoldable pub run : RunGenerator (Unit {0})
  unfolding body on_exception on_setup_exception accept_resolution
  run =
      catch
        (check setup.prepared >>= λ resolution. check (accept_resolution resolution) >>= λ snapshot.
          check setup.assembled >> catch body on_exception)
        on_setup_exception
