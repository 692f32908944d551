-- ===== src/Runner/Conclusions.antt =====
-- How a run concludes: at most one terminal event, as its last, behind the commit of its status.
use mathlib.Core.List.{append_assoc}
use coresmos.Prelude.{
  ◌≡◌, ℕ, refl, Bool, true, false, Option, none, some, List, [], ◌∷◌, ◌++◌, Text,
}
use coresmos.Errors.{Error, Result, ok, raise}
use coresmos.Contracts.Enums.{RunStatus}
use coresmos.Recording.Finalized.{IsFinalized}
use coresmos.Loop.Turns.{RuntimeEvent, is_found}
use coresmos.Loop.Streams.{has_none}
use coresmos.Generators.{Generator, ◌>>=◌, resume, throw, catch, caught}
use coresmos.Loop.Strict.{has_none-append}
use coresmos.Runner.{
  RunEvent, run_started, loop_event, run_succeeded, run_failed, run_cancelled, RunnerState, Closed,
}

-- The status that a terminal event announces.
abbrev pub announced : {X : Type 0} → RunEvent X → Option RunStatus
announced (run_started i t) = none
announced (loop_event (RuntimeEvent.run_waiting i p d)) = some RunStatus.waiting
announced (loop_event _) = none
announced (run_succeeded i) = some RunStatus.succeeded
announced (run_failed i e) = some RunStatus.failed
announced (run_cancelled i r works) = some RunStatus.cancelled

abbrev pub is_terminal : {X : Type 0} → RunEvent X → Bool
is_terminal e = is_found (announced e)

module _ {X : Type 0} (closed : Closed) (run_id : Text) where
  -- How the events and the state of a run can end.
  pub data Concluded {A : Type 0} : List (RunEvent X) × Result A × RunnerState → Type 0 where
    -- An exception leaves the run, and no terminal event was yielded.
    passed_on :
        (events : List (RunEvent X)) (e : Error) (s : RunnerState)
        → has_none is_terminal events ≡ true
        → s.yielded_terminal ≡ false
        → Concluded (events, raise e, s)
    -- The consumer had closed.
    unseen :
        (events : List (RunEvent X)) (a : A) (s : RunnerState) (n : ℕ)
        → has_none is_terminal events ≡ true
        → closed n ≡ true
        → Concluded (events, ok a, s)
    -- The last event is the terminal one, and its status is committed.
    announced_last :
        (before : List (RunEvent X)) (event : RunEvent X) (status : RunStatus) (a : A)
        (s : RunnerState)
        → has_none is_terminal before ≡ true
        → announced event ≡ some status
        → IsFinalized run_id status s.transcript
        → Concluded (before ++ event ∷ [], ok a, s)

  pub record Concludes {A : Type 0} (m : Generator RunnerState (RunEvent X) A) : Type 0 where
    pub concluded : (s : RunnerState) → s.yielded_terminal ≡ false → Concluded (m s)

  -- No terminal event, and none was yielded before.
  pub record Calmed {A : Type 0} (r : List (RunEvent X) × Result A × RunnerState) : Type 0 where
    pub no_terminal : has_none is_terminal r.0 ≡ true
    pub none_before : r.2.yielded_terminal ≡ false

  pub record IsCalm {A : Type 0} (m : Generator RunnerState (RunEvent X) A) : Type 0 where
    pub calmed : (s : RunnerState) → s.yielded_terminal ≡ false → Calmed (m s)

  module _ {A : Type 0} where
    add_calm :
        {r : List (RunEvent X) × Result A × RunnerState} (events : List (RunEvent X))
        → has_none is_terminal events ≡ true
        → Concluded r
        → Concluded (events ++ r.0, r.1, r.2)
    add_calm events h (passed_on es e s k f) =
        passed_on (events ++ es) e s (has_none-append is_terminal events es h k) f
    add_calm events h (unseen es a s n k c) =
        unseen (events ++ es) a s n (has_none-append is_terminal events es h k) c
    add_calm events h (announced_last before event status a s k t f) =
        rw (← append_assoc events before (event ∷ [])) (
          announced_last (events ++ before) event status a s
            (has_none-append is_terminal events before h k) t f)

    caught-Concluded :
        {r : List (RunEvent X) × Result A × RunnerState}
        (handler : Error → Generator RunnerState (RunEvent X) A)
        → Concluded r
        → ((e : Error) → Concludes (handler e))
        → Concluded (caught r handler)
    caught-Concluded handler (passed_on es e s h f) k = add_calm es h ((k e).concluded s f)
    caught-Concluded handler (unseen es a s n h c) k = unseen es a s n h c
    caught-Concluded handler (announced_last before event status a s h t f) k =
        announced_last before event status a s h t f

    pub catch-Concludes :
        {m : Generator RunnerState (RunEvent X) A}
        {handler : Error → Generator RunnerState (RunEvent X) A}
        → Concludes m
        → ((e : Error) → Concludes (handler e))
        → Concludes (catch m handler)
    unfolding catch
    catch-Concludes {handler} h k = record {
      concluded = λ s f. caught-Concluded handler (h.concluded s f) k;
    }

    pub throw-Concludes : (e : Error) → Concludes {A = A} (throw e)
    unfolding throw has_none
    throw-Concludes e = record { concluded = λ s f. passed_on [] e s refl f }

  module _ {A B : Type 0} where
    resume-Concluded :
        (r : List (RunEvent X) × Result A × RunnerState)
        (rest : A → Generator RunnerState (RunEvent X) B)
        → Calmed r
        → ((a : A) → Concludes (rest a))
        → Concluded (resume r rest)
    resume-Concluded (es, raise e, s) rest h k = passed_on es e s h.no_terminal h.none_before
    resume-Concluded (es, ok a, s) rest h k =
        add_calm es h.no_terminal ((k a).concluded s h.none_before)

    pub >>=-Concludes :
        {m : Generator RunnerState (RunEvent X) A} {rest : A → Generator RunnerState (RunEvent X) B}
        → IsCalm m
        → ((a : A) → Concludes (rest a))
        → Concludes (m >>= rest)
    unfolding ◌>>=◌
    >>=-Concludes {m} {rest} h k = record {
      concluded = λ s f. resume-Concluded (m s) rest (h.calmed s f) k;
    }

    resume-Calmed :
        (r : List (RunEvent X) × Result A × RunnerState)
        (rest : A → Generator RunnerState (RunEvent X) B)
        → Calmed r
        → ((a : A) → IsCalm (rest a))
        → Calmed (resume r rest)
    resume-Calmed (es, raise e, s) rest h k = record {
      no_terminal = h.no_terminal;
      none_before = h.none_before;
    }
    resume-Calmed (es, ok a, s) rest h k =
        let later = (k a).calmed s h.none_before in
        record {
          no_terminal = has_none-append is_terminal es _ h.no_terminal later.no_terminal;
          none_before = later.none_before;
        }

    pub >>=-IsCalm :
        {m : Generator RunnerState (RunEvent X) A} {rest : A → Generator RunnerState (RunEvent X) B}
        → IsCalm m
        → ((a : A) → IsCalm (rest a))
        → IsCalm (m >>= rest)
    unfolding ◌>>=◌
    >>=-IsCalm {m} {rest} h k = record { calmed = λ s f. resume-Calmed (m s) rest (h.calmed s f) k }
