-- ===== src/Recording/Runs.antt =====
-- The end of a run and the snapshot of `MemoryTranscript` in src/agent_runtime/recording.py.
use coresmos.Prelude.{
  Option, none, some, List, [], ◌∷◌, ◌++◌, Text, Text-discrete, codes, get, put, decimal,
}
use coresmos.Errors.{Result, ok, raise, ◌>>=◌, key_error}
use coresmos.Contracts.Enums.{LogicalOpKind, RunStatus}
use coresmos.Contracts.Messages.{Message}
use coresmos.Contracts.Receipts.{RecordTarget}
use coresmos.Recording.Payloads.{Payload}
use coresmos.Recording.Store.{
  MemoryTranscript, Exec, find_message, OpCall, committed, store_op, ids_of,
}
use coresmos.Recording.Operations.{with_op}

-- `status.value`
abbrev pub status_text : RunStatus → Text
status_text RunStatus.running = codes "running"
status_text RunStatus.succeeded = codes "succeeded"
status_text RunStatus.failed = codes "failed"
status_text RunStatus.cancelled = codes "cancelled"
status_text RunStatus.waiting = codes "waiting"

unfoldable pub finalize_run : Text → RunStatus → Exec (Unit {0})
unfolding with_op committed store_op
finalize_run run_id status =
    let op = (run_id ++ codes ":finalize:") ++ status_text status in
    let call : OpCall = record {
      logical_op_id = op;
      kind = LogicalOpKind.run_final;
      payload = Payload.run_final status;
      run_id = run_id;
      step_no = none;
      record_target = none;
      previous_receipt = none;
    } in
    with_op call (λ _. ok tt)
      (λ s.
        let s1 = record s { run_status = put Text-discrete run_id status s.run_status } in
        (ok tt, store_op op (committed call none [] none) s1))

-- `run_status`
unfoldable pub status_of : Text → MemoryTranscript → Option RunStatus
status_of run_id s = get Text-discrete run_id s.run_status

pub record TranscriptSnapshot : Type 0 where
  pub version : Text
  pub record_target : RecordTarget
  pub messages : List Message

-- `tuple(self._messages[message_id] for message_id in ids)`
unfoldable pub read_messages : MemoryTranscript → List Text → Result (List Message)
read_messages s [] = ok []
read_messages s (i ∷ ids) = elim (find_message s i) [
  | none ↦ raise key_error
  | some m ↦ read_messages s ids >>= λ rest. ok (m ∷ rest)
]

unfoldable pub snapshot : RecordTarget → MemoryTranscript → Result TranscriptSnapshot
unfolding read_messages
snapshot target s = do
  messages ← read_messages s (ids_of s target.value)
  ok (record {
    version = (codes "v" ++ decimal s.version) ++ 58 ∷ target.value;
    record_target = target;
    messages = messages;
  })

-- A new transcript.
unfoldable pub empty : List Text → MemoryTranscript
empty tools = record {
  unrecorded_tools = tools;
  messages = [];
  order = [];
  ops = [];
  text_ids = [];
  fail_ops = [];
  version = 0;
  run_status = [];
  seq = 0;
}
