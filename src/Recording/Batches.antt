-- ===== src/Recording/Batches.antt =====
-- The tool batches, the end of a run and the snapshot of `MemoryTranscript` in
-- src/agent_runtime/recording.py.
use coresmos.Prelude.{
  ℕ, ◌==◌, if◌then◌else◌, Bool, true, false, ◌&&◌, ◌||◌, not, Option, none, some, List, [], ◌∷◌,
  Text, Text-discrete, elem, ite,
}
use coresmos.Errors.{
  Result, ok, raise, require, ◌>>◌, recording_error, message_not_found_error,
  receipt_mismatch_error,
}
use coresmos.Contracts.Enums.{Role, LogicalOpKind}
use coresmos.Contracts.Messages.{ToolCall, ToolResult, Message}
use coresmos.Contracts.Receipts.{RecordTarget, MessageReceipt, CallRecord, BatchReceipt}
use coresmos.Recording.Payloads.{
  Payload, Receipt, receipt_identity_eq, same, RecordTarget-discrete, batch_identity_eq,
}
use coresmos.Recording.Store.{
  MemoryTranscript, CommittedOp, TextKey, Exec, then_do, find_message, find_op, next_id, OpCall,
  committed, store_op, append,
}
use coresmos.Recording.Operations.{
  with_op, batch_again, results_again, or_else, as_batch, upsert, assistant, lift, is_known,
}

-- `[call.name in self._unrecorded_tools for call in calls]`, and its `any` and `all`.
unfoldable pub any_skipped : List Text → List ToolCall → Bool
any_skipped tools [] = false
any_skipped tools (c ∷ cs) = elem Text-discrete c.name tools || any_skipped tools cs

unfoldable pub all_skipped : List Text → List ToolCall → Bool
all_skipped tools [] = true
all_skipped tools (c ∷ cs) = elem Text-discrete c.name tools && all_skipped tools cs

-- `_unrecorded`: whether the batch stays outside the transcript.
unfoldable pub unrecorded : List ToolCall → MemoryTranscript → Result Bool
unfolding any_skipped all_skipped
unrecorded calls s = elim s.unrecorded_tools [
  | [] ↦ ok false
  | t ∷ ts ↦
      if any_skipped (t ∷ ts) calls && not (all_skipped (t ∷ ts) calls)
      then raise recording_error
      else ok (any_skipped (t ∷ ts) calls)
]

abbrev pub batch_of : Option CommittedOp → Option BatchReceipt
batch_of none = none
batch_of (some c) = c.batch_receipt

-- A previous receipt has to be the receipt of a committed batch.
unfoldable pub known_batch : Option BatchReceipt → MemoryTranscript → Result (Unit {0})
known_batch none s = ok tt
known_batch (some p) s =
    require
      (is_known (find_op s p.logical_op_id)
        && receipt_identity_eq (as_batch (batch_of (find_op s p.logical_op_id)))
            (some (Receipt.batch p)))
      receipt_mismatch_error

-- `tuple(CallRecord(call.call_id, call.name, message_id) for call in calls)`
unfoldable pub call_records : Text → List ToolCall → List CallRecord
call_records i [] = []
call_records i (c ∷ cs) =
    record { call_id = c.call_id; name = c.name; message_id = i } ∷ call_records i cs

abbrev pub batch_receipt :
    OpCall → ℕ → RecordTarget → List CallRecord → Option Text → Bool → BatchReceipt
batch_receipt call step_no target records i required = record {
  run_id = call.run_id;
  step_no = step_no;
  record_target = target;
  logical_op_id = call.logical_op_id;
  calls = records;
  assistant_message_id = i;
  recording_required = required;
  created = true;
}

-- The batch is written into the assistant's message, or, for unrecorded tools, only its receipt is kept.
unfoldable pub write_batch :
    OpCall
    → ℕ
    → RecordTarget
    → List ToolCall
    → Option Text
    → Option Text
    → ℕ
    → Bool
    → Exec BatchReceipt
unfolding upsert committed store_op call_records
write_batch call step_no target calls text reasoning attempt true s =
    let receipt = batch_receipt call step_no target [] none false in
    (ok receipt, store_op call.logical_op_id (committed call none [] (some receipt)) s)
write_batch call step_no target calls text reasoning attempt false s =
    let key : TextKey = record {
      run_id = call.run_id;
      step_no = step_no;
      target = target.value;
      attempt = attempt;
    } in
    then_do
      (upsert key target (assistant text reasoning calls) (λ m. record m {
        content = or_else text m.content;
        reasoning = or_else reasoning m.reasoning;
        tool_calls = calls;
      }))
      (λ written s2.
        let receipt =
          batch_receipt call step_no target (call_records written.0 calls) (some written.0) true in
        (ok receipt, store_op call.logical_op_id (committed call none [] (some receipt)) s2))
      s

unfoldable pub record_tool_calls :
    Text
    → ℕ
    → RecordTarget
    → List ToolCall
    → Option Text
    → Option Text
    → Text
    → Option BatchReceipt
    → ℕ
    → Exec BatchReceipt
unfolding with_op known_batch unrecorded write_batch
record_tool_calls run_id step_no target calls text reasoning op previous attempt =
    let call : OpCall = record {
      logical_op_id = op;
      kind = LogicalOpKind.tool_calls;
      payload = Payload.tool_calls calls text reasoning;
      run_id = run_id;
      step_no = some step_no;
      record_target = some target;
      previous_receipt = as_batch previous;
    } in
    with_op call batch_again (
      then_do (lift (known_batch previous)) (λ _.
        then_do (lift (unrecorded calls))
          (λ outside. write_batch call step_no target calls text reasoning attempt outside)))

-- `{record.call_id: record for record in stored.calls}.get(call_id)`: the last of that id.
unfoldable pub known_call : List CallRecord → Text → Option CallRecord
known_call [] t = none
known_call (r ∷ rs) t = elim (known_call rs t) [
  | some later ↦ some later
  | none ↦ ite (Text-discrete r.call_id t) (some r) none
]

-- `Message(role=Role.TOOL, ...)` with its id.
abbrev pub tool_message : Text → ToolResult → Message
tool_message i result = record {
  role = Role.tool;
  content = some result.output;
  tool_calls = [];
  tool_call_id = some result.call_id;
  name = some result.name;
  reasoning = none;
  message_id = some i;
}

-- `if record is None: raise ...; if record.message_id not in self._messages: raise ...`
unfoldable pub check_result : List CallRecord → ToolResult → MemoryTranscript → Result (Unit {0})
unfolding known_call
check_result records result s = elim (known_call records result.call_id) [
  | none ↦ raise receipt_mismatch_error
  | some r ↦ require (is_known (find_message s r.message_id)) message_not_found_error
]

-- The loop over the results: an id and a message for each; nothing is appended yet.
unfoldable pub stage : Text → List CallRecord → List ToolResult → Exec (List (Text × Message))
unfolding check_result next_id
stage run_id records [] s = (ok [], s)
stage run_id records (result ∷ results) s =
    let (i, s1) = next_id run_id s in
    then_do (lift (check_result records result))
      (λ _ s0.
        then_do (stage run_id records results)
          (λ staged s2. (ok ((i, tool_message i result) ∷ staged), s2)) s1)
      s

-- `for stored_message in pending_messages: self._append(record_target, stored_message)`
unfoldable pub append_all :
    RecordTarget → List (Text × Message) → MemoryTranscript → MemoryTranscript
unfolding append
append_all target [] s = s
append_all target ((i, m) ∷ rest) s = append_all target rest (append target i m s)

unfoldable pub staged_receipts :
    Text → ℕ → RecordTarget → Text → List (Text × Message) → List MessageReceipt
staged_receipts run_id step_no target op [] = []
staged_receipts run_id step_no target op ((i, m) ∷ rest) =
    record {
      message_id = i;
      run_id = run_id;
      step_no = some step_no;
      record_target = target;
      logical_op_id = op;
      created = true;
    }
    ∷ staged_receipts run_id step_no target op rest

-- The batch that the previous receipt names, if it is that receipt and belongs to this step.
unfoldable pub stored_batch :
    Text → ℕ → RecordTarget → BatchReceipt → MemoryTranscript → Result BatchReceipt
stored_batch run_id step_no target p s = elim (batch_of (find_op s p.logical_op_id)) [
  | none ↦ raise receipt_mismatch_error
  | some stored ↦ do
    require (batch_identity_eq stored p) receipt_mismatch_error
    require
        (same Text-discrete stored.run_id run_id
          && stored.step_no == step_no
          && same RecordTarget-discrete stored.record_target target)
        receipt_mismatch_error
    ok stored
]

unfoldable pub write_results :
    OpCall → ℕ → RecordTarget → List ToolResult → BatchReceipt → Exec (List MessageReceipt)
unfolding stage append_all staged_receipts committed store_op
write_results call step_no target results stored =
    if stored.recording_required
    then then_do (stage call.run_id stored.calls results) (λ staged s.
      let receipts = staged_receipts call.run_id step_no target call.logical_op_id staged in
      (
        ok receipts,
        store_op call.logical_op_id (committed call none receipts none)
            (append_all target staged s),
      ))
    else λ s. (ok [], s)

unfoldable pub record_tool_results :
    Text → ℕ → RecordTarget → List ToolResult → Text → BatchReceipt → Exec (List MessageReceipt)
unfolding with_op stored_batch write_results
record_tool_results run_id step_no target results op previous =
    let call : OpCall = record {
      logical_op_id = op;
      kind = LogicalOpKind.tool_results;
      payload = Payload.tool_results results;
      run_id = run_id;
      step_no = some step_no;
      record_target = some target;
      previous_receipt = some (Receipt.batch previous);
    } in
    with_op call results_again (
      then_do (lift (stored_batch run_id step_no target previous))
        (λ stored. write_results call step_no target results stored))
