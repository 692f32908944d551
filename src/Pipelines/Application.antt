-- ===== src/Pipelines/Application.antt =====
-- `MemoryApplicationState` of src/agent_runtime/application.py; its lock makes each method one step.
use coresmos.Prelude.{
  ℕ, ◌+◌, Bool, false, if◌then◌else◌, none, some, [], ◌∷◌, ◌++◌, Text, Text-discrete, codes, Dict,
  get, put, decimal,
}
use coresmos.Errors.{Result, ok, raise, runtime_error}
use coresmos.Json.{Fields}
use coresmos.Contracts.Receipts.{RecordTarget}
use coresmos.Context.Provider.{ApplicationSnapshot}

pub record MemoryApplicationState : Type 0 where
  pub seq : ℕ
  pub snapshots : Dict Text ApplicationSnapshot
  pub fail_next : Bool

-- `ApplicationSnapshot(version="app-1", record_target=record_target)`
abbrev pub first_snapshot : RecordTarget → ApplicationSnapshot
first_snapshot target = record {
  version = codes "app-1";
  record_target = target;
  payload = Fields.end;
}

unfoldable pub new_application : RecordTarget → MemoryApplicationState
new_application target = record {
  seq = 1;
  snapshots = (target.value, first_snapshot target) ∷ [];
  fail_next = false;
}

unfoldable pub current :
    RecordTarget → MemoryApplicationState → ApplicationSnapshot × MemoryApplicationState
current target a = elim (get Text-discrete target.value a.snapshots) [
  | some existing ↦ (existing, a)
  | none ↦ (
    first_snapshot target,
    record a { snapshots = put Text-discrete target.value (first_snapshot target) a.snapshots },
  )
]

unfoldable pub commit :
    RecordTarget
    → Fields
    → MemoryApplicationState
    → Result ApplicationSnapshot × MemoryApplicationState
commit target payload a =
    let snapshot : ApplicationSnapshot = record {
      version = codes "app-" ++ decimal (a.seq + 1);
      record_target = target;
      payload = payload;
    } in
    if a.fail_next then (raise runtime_error, record a { fail_next = false }) else (
      ok snapshot,
      record a { seq = a.seq + 1; snapshots = put Text-discrete target.value snapshot a.snapshots },
    )
