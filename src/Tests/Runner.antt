-- ===== src/Tests/Runner.antt =====
-- The theorems on src/agent_runtime/runner.py at a concrete run.
use coresmos.Prelude.{
  elem, get, put, Text-discrete, ◌≡◌, refl, true, ℕ, false, none, some, [], ◌∷◌, codes,
}
use coresmos.Errors.{ok, raise, adapter_error}
use coresmos.Contracts.Enums.{MatchKind, RunStatus}
use coresmos.Loop.Turns.{RuntimeEvent}
use coresmos.Generators.{◌>>=◌, catch, check, call, yield, return, modify}
use coresmos.Recording.Store.{check_fail}
use coresmos.Recording.Runs.{empty, status_of}
use coresmos.Runner.{RunnerState, RunSetup, Closed, run}
use coresmos.Runner.Conclusions.{Concludes}
use coresmos.Runner.Terminal.{run-Concludes}
use coresmos.Tests.Data.{is_ok, chat, no_tools}

-- The loop yields one event and breaks.
abbrev broken_run : RunSetup ℕ
broken_run = record {
  run_id = codes "r";
  input_items = [];
  record_target = chat;
  completed_entry = false;
  prepared = ok (record { kind = MatchKind.matched; snapshot = some no_tools; reason = none });
  assembled = ok tt;
  loop = record {
    pulled = record { work = λ t. t; event = RuntimeEvent.progress 7 } ∷ [];
    last_work = λ t. t;
    end = raise adapter_error;
  };
  external_work = [];
  first_reason = none;
}

abbrev present : Closed
present n = false

run-Concludes_example : Concludes present (codes "r") (run present broken_run)
run-Concludes_example = run-Concludes present broken_run

abbrev new_runner : RunnerState
new_runner = record { transcript = empty []; yielded_terminal = false; asked = 0 }

run_returns : is_ok (run present broken_run new_runner).1 ≡ true
unfolding run ◌>>=◌ catch check call yield return modify check_fail elem empty get
run_returns = refl

abbrev gone : Closed
gone n = true

-- The loop would raise, but the consumer has closed, and the run is committed as a success.
closed_succeeds :
    status_of (codes "r") (run gone broken_run new_runner).2.transcript ≡ some RunStatus.succeeded
unfolding run ◌>>=◌ catch check call yield return modify check_fail elem empty get put status_of
    Text-discrete
closed_succeeds = refl
