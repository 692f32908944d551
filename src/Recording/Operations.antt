-- ===== src/Recording/Operations.antt =====
-- The operations of `MemoryTranscript` in src/agent_runtime/recording.py. The lock makes each of them
-- one step.
use coresmos.Prelude.{
  ℕ, Bool, true, false, Option, none, some, List, [], ◌∷◌, ◌++◌, map, Text, get, put,
}
use coresmos.Errors.{
  Result, ok, raise, require, ◌>>=◌, ◌>>◌, message_not_found_error, receipt_mismatch_error,
  assertion_error,
}
use coresmos.Contracts.Enums.{Role, LogicalOpKind}
use coresmos.Contracts.Messages.{ToolCall, Message}
use coresmos.Contracts.Receipts.{RecordTarget, MessageReceipt, BatchReceipt}
use coresmos.Recording.Payloads.{Payload, Receipt}
use coresmos.Recording.Store.{
  MemoryTranscript, CommittedOp, TextKey, TextKey-discrete, Exec, then_do, find_message, find_op,
  next_id, check_fail, OpCall, replay, committed, store_op, append, replace,
}

-- How every operation starts: an injected failure is raised; a committed operation is replayed and
-- `again` makes its result; any other runs `fresh`.
unfoldable pub with_op : {A : Type 0} → OpCall → (CommittedOp → Result A) → Exec A → Exec A
with_op call again fresh = then_do (check_fail call.logical_op_id) (λ _ s.
    elim (find_op s call.logical_op_id) [
      | some existing ↦ (replay existing call >>= again, s)
      | none ↦ fresh s
    ])

-- `assert existing.message_receipt is not None; return replace(existing.message_receipt, created=False)`
abbrev pub message_again : CommittedOp → Result MessageReceipt
message_again c = elim c.message_receipt [
  | none ↦ raise assertion_error
  | some r ↦ ok (record r { created = false })
]

abbrev pub batch_again : CommittedOp → Result BatchReceipt
batch_again c = elim c.batch_receipt [
  | none ↦ raise assertion_error
  | some r ↦ ok (record r { created = false })
]

abbrev pub results_again : CommittedOp → Result (List MessageReceipt)
results_again c = ok (map (λ (r : MessageReceipt). record r { created = false }) c.message_receipts)

-- `if o is not None: o else d`
abbrev pub or_else : Option Text → Option Text → Option Text
or_else none d = d
or_else (some t) d = some t

abbrev pub is_known {ℓ} : {A : Type ℓ} → Option A → Bool
is_known none = false
is_known (some a) = true

abbrev pub text_of : Option Text → Text
text_of none = []
text_of (some t) = t

abbrev pub as_message : Option MessageReceipt → Option Receipt
as_message none = none
as_message (some r) = some (Receipt.message r)

abbrev pub as_batch : Option BatchReceipt → Option Receipt
as_batch none = none
as_batch (some r) = some (Receipt.batch r)

-- The message of one attempt of one step: made under the first id, and changed from then on. The
-- three operations on an assistant's message share this shape.
unfoldable pub upsert : TextKey → RecordTarget → Message → (Message → Message) → Exec (Text × Bool)
unfolding next_id append replace
upsert key target new change s = elim (get TextKey-discrete key s.text_ids) [
  | none ↦
      let (i, s1) = next_id key.run_id s in
      let s2 = record s1 { text_ids = put TextKey-discrete key i s1.text_ids } in
      (ok (i, true), append target i (record new { message_id = some i }) s2)
  | some i ↦ elim (find_message s i) [
    | none ↦ (raise message_not_found_error, s)
    | some current ↦ then_do (replace i (change current)) (λ _ s2. (ok (i, false), s2)) s
  ]
]

unfoldable pub record_input : Text → RecordTarget → Message → Text → Exec MessageReceipt
unfolding with_op next_id append committed store_op
record_input run_id target message op =
    let call : OpCall = record {
      logical_op_id = op;
      kind = LogicalOpKind.input;
      payload = Payload.input message;
      run_id = run_id;
      step_no = none;
      record_target = some target;
      previous_receipt = none;
    } in
    with_op call message_again (λ s.
      let (i, s1) = next_id run_id s in
      let receipt : MessageReceipt = record {
        message_id = i;
        run_id = run_id;
        step_no = none;
        record_target = target;
        logical_op_id = op;
        created = true;
      } in
      let s2 = append target i (record message { message_id = some i }) s1 in
      (ok receipt, store_op op (committed call (some receipt) [] none) s2))

-- `Message(role=Role.ASSISTANT, ...)`
abbrev pub assistant : Option Text → Option Text → List ToolCall → Message
assistant content reasoning calls = record {
  role = Role.assistant;
  content = content;
  tool_calls = calls;
  tool_call_id = none;
  name = none;
  reasoning = reasoning;
  message_id = none;
}

-- What the receipt of a text operation says.
abbrev pub text_receipt : Text → ℕ → RecordTarget → Text → Text × Bool → MessageReceipt
text_receipt run_id step_no target op (i, created) = record {
  message_id = i;
  run_id = run_id;
  step_no = some step_no;
  record_target = target;
  logical_op_id = op;
  created = created;
}

-- `previous_receipt.message_id not in self._messages`
unfoldable pub known_message : Option MessageReceipt → MemoryTranscript → Result (Unit {0})
known_message none s = ok tt
known_message (some p) s = require (is_known (find_message s p.message_id)) message_not_found_error

abbrev pub lift : {A : Type 0} → (MemoryTranscript → Result A) → Exec A
lift f s = (f s, s)

-- The message is written and the operation is stored with its receipt.
unfoldable pub write_text :
    OpCall → Text → ℕ → RecordTarget → ℕ → Message → (Message → Message) → Exec MessageReceipt
unfolding upsert committed store_op
write_text call run_id step_no target attempt new change =
    let key : TextKey = record {
      run_id = run_id;
      step_no = step_no;
      target = target.value;
      attempt = attempt;
    } in
    then_do (upsert key target new change) (λ written s.
      let receipt = text_receipt run_id step_no target call.logical_op_id written in
      (ok receipt, store_op call.logical_op_id (committed call (some receipt) [] none) s))

unfoldable pub record_text_delta :
    Text → ℕ → RecordTarget → Text → Text → ℕ → Option MessageReceipt → Exec MessageReceipt
unfolding with_op known_message write_text
record_text_delta run_id step_no target text op attempt previous =
    let call : OpCall = record {
      logical_op_id = op;
      kind = LogicalOpKind.text_delta;
      payload = Payload.text_delta text attempt;
      run_id = run_id;
      step_no = some step_no;
      record_target = some target;
      previous_receipt = as_message previous;
    } in
    with_op call message_again (
      then_do (lift (known_message previous)) (λ _.
        write_text call run_id step_no target attempt (assistant (some text) none [])
          (λ m. record m { content = some (text_of m.content ++ text) })))

-- The checks of `previous_receipt` in `record_text_final`.
unfoldable pub known_previous : Option MessageReceipt → MemoryTranscript → Result (Unit {0})
unfolding known_message
known_previous none s = ok tt
known_previous (some p) s = do
  require (is_known (find_op s p.logical_op_id)) receipt_mismatch_error
  known_message (some p) s

abbrev pub calls_or : List ToolCall → List ToolCall → List ToolCall
calls_or [] old = old
calls_or (c ∷ cs) old = c ∷ cs

unfoldable pub record_text_final :
    Text
    → ℕ
    → RecordTarget
    → Option Text
    → Option Text
    → List ToolCall
    → Text
    → ℕ
    → Option MessageReceipt
    → Exec MessageReceipt
unfolding with_op known_previous write_text
record_text_final run_id step_no target text reasoning calls op attempt previous =
    let call : OpCall = record {
      logical_op_id = op;
      kind = LogicalOpKind.text_final;
      payload = Payload.text_final text reasoning calls attempt;
      run_id = run_id;
      step_no = some step_no;
      record_target = some target;
      previous_receipt = as_message previous;
    } in
    with_op call message_again (
      then_do (lift (known_previous previous)) (λ _.
        write_text call run_id step_no target attempt (assistant text reasoning calls) (λ m.
          record m {
            content = or_else text m.content;
            reasoning = or_else reasoning m.reasoning;
            tool_calls = calls_or calls m.tool_calls;
          })))
