-- ===== src/Tests/Loop.antt =====
-- The theorems on src/agent_runtime/core.py at concrete streams and requests.
use coresmos.Prelude.{ℕ, ◌≡◌, ◌↔◌, ◌==◌, refl, Bool, true, false, none, some, [], ◌∷◌, codes}
use coresmos.Errors.{ok, raise, adapter_error}
use coresmos.Contracts.Flows.{ExecutionLimits}
use coresmos.Loop.Streams.{
  ManagedEventStream, consume_strict, iterate_strict, IsComplete, strict_from, finish, ending_error,
  is_cancelled,
}
use coresmos.Loop.Strict
use coresmos.Loop.Strict.{Failed}
use coresmos.Loop.Allocation.{Counters, allocate}
use coresmos.Contracts.Enums.{Flow}
use coresmos.Tests.Data.{step_of, saying}
use coresmos.Loop.Turns.{ExecutionPorts, ExecutionEntry, RuntimeEvent, run}
use coresmos.Context.Budget.Ledger.{raise_if_exhausted}
use coresmos.Loop.Ends
use coresmos.Loop.Ends.{HasEnded}
use coresmos.Loop.Numbers
use coresmos.Loop.Numbers.{Request, allocate_all, IsCounted, IsWithin}

-- An event is a number, and 0 is the completion.
abbrev is_zero : ℕ → Bool
is_zero n = n == 0

abbrev good : ManagedEventStream ℕ
good = record { items = 3 ∷ 4 ∷ 0 ∷ []; failure = none }

abbrev broken : ManagedEventStream ℕ
broken = record { items = 3 ∷ []; failure = some adapter_error }

consume_strict_iff_example :
    (consume_strict is_zero good ≡ ok (0, 3 ∷ 4 ∷ 0 ∷ []))
    ↔ (IsComplete is_zero good 0 × (3 ∷ 4 ∷ 0 ∷ [] ≡ good.items))
consume_strict_iff_example = Strict.consume_strict_iff is_zero good 0 (3 ∷ 4 ∷ 0 ∷ [])

broken_raises : (iterate_strict is_zero broken).1 ≡ raise adapter_error
unfolding iterate_strict strict_from finish ending_error is_cancelled
broken_raises = refl

iterate_strict-Failed_example :
    Failed is_zero (some adapter_error) (iterate_strict is_zero broken).0 adapter_error
iterate_strict-Failed_example =
    Strict.iterate_strict-Failed is_zero broken adapter_error broken_raises

abbrev limits : ExecutionLimits
limits = record {
  max_model_rounds = some 2;
  max_steps = some 3;
  max_estimated_tokens = none;
  deadline_seconds = none;
  recovery = record {
    max_attempts = 1;
    remaining_attempts = 1;
    backoff_seconds = [];
    retry_partial_output = false;
  };
}

abbrev ask : Request
ask = record { stop = none; budget = record { limit = none; reserved = 0 }; consume_model = true }

abbrev start : Counters
start = record { step_no = 0; model_rounds = 0 }

start-IsWithin : IsWithin (codes "r") limits start
start-IsWithin = record { steps = refl; rounds = refl }

allocate_all-IsCounted_example :
    IsCounted
      (codes "r")
      limits
      (ask ∷ ask ∷ ask ∷ [])
      start
      (allocate_all (codes "r") limits (ask ∷ ask ∷ ask ∷ []) start)
allocate_all-IsCounted_example =
    Numbers.allocate_all-IsCounted (codes "r") limits (ask ∷ ask ∷ ask ∷ []) start start-IsWithin

-- A host without tools: the model answers at once, and the completion finishes the run.
abbrev ports : ExecutionPorts ℕ
ports = record {
  stop = λ c. none;
  budget = λ c. record { limit = none; reserved = 0 };
  prepare = λ i. ok (step_of i);
  stream = λ step. record {
    items = RuntimeEvent.progress 7 ∷ RuntimeEvent.model_completed (saying (codes "hi")) ∷ [];
    failure = none;
  };
  execute = λ command. record { items = []; failure = none };
  complete = λ step result. record {
    items =
        RuntimeEvent.completion_completed
          (record { flow = Flow.finish; reason = none; pending_ref = none })
        ∷ [];
    failure = none;
  };
}

run-HasEnded_example :
    HasEnded (codes "r") limits ports (run (codes "r") limits ports 4 ExecutionEntry.model start)
run-HasEnded_example = Ends.run-HasEnded (codes "r") limits ports 3 ExecutionEntry.model start refl

run-HasEnded_once :
    HasEnded (codes "r") limits ports (run (codes "r") limits ports 4 ExecutionEntry.model start)
run-HasEnded_once = Ends.run-HasEnded (codes "r") limits ports 3 ExecutionEntry.model start refl

run_returns : (run (codes "r") limits ports 1 ExecutionEntry.model start).1 ≡ some (ok tt)
unfolding run allocate raise_if_exhausted iterate_strict
run_returns = refl
