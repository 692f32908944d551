-- ===== src/Recording/Store.antt =====
-- The state of `MemoryTranscript` in src/agent_runtime/recording.py, and its private helpers.
use coresmos.Prelude.{
  ℕ, ◌+◌, if◌then◌else◌, Bool, true, false, ◌&&◌, Option, none, some, List, [], ◌∷◌, ◌++◌, ite,
  ℕ_discrete, Text, Text-discrete, codes, elem, Dict, get, put, decimal,
}
use coresmos.Errors.{
  Result, ok, raise, require, ◌>>◌, recording_error, idempotency_error, message_not_found_error,
  receipt_mismatch_error,
}
use coresmos.Contracts.Enums.{LogicalOpKind, LogicalOpKind-discrete, RunStatus}
use coresmos.Contracts.Messages.{Message}
use coresmos.Contracts.Receipts.{RecordTarget, MessageReceipt, BatchReceipt}
use coresmos.Recording.Payloads.{
  Payload, payload_eq, Receipt, receipt_identity_eq, same, OptionNat-discrete,
  RecordTarget-discrete,
}

pub record CommittedOp : Type 0 where
  pub kind : LogicalOpKind
  pub payload : Payload
  pub run_id : Text
  pub step_no : Option ℕ
  pub record_target : Option RecordTarget
  pub previous_receipt : Option Receipt
  pub message_receipt : Option MessageReceipt
  pub message_receipts : List MessageReceipt
  pub batch_receipt : Option BatchReceipt

-- `(run_id, step_no, record_target.value, attempt)`
pub record TextKey : Type 0 where
  pub run_id : Text
  pub step_no : ℕ
  pub target : Text
  pub attempt : ℕ

pub record MemoryTranscript : Type 0 where
  pub unrecorded_tools : List Text
  pub messages : Dict Text Message
  pub order : Dict Text (List Text)
  pub ops : Dict Text CommittedOp
  pub text_ids : Dict TextKey Text
  pub fail_ops : List Text
  pub version : ℕ
  pub run_status : Dict Text RunStatus
  pub seq : ℕ

unfoldable pub TextKey-discrete : Discrete TextKey
TextKey-discrete = hlevel (Text-discrete, ℕ_discrete)

-- A method mutates the transcript and returns or raises; what was written before an exception stays.
abbrev pub Exec : Type 0 → Type 0
Exec A = MemoryTranscript → Result A × MemoryTranscript

abbrev pub proceed :
    {A B : Type 0} → Result A × MemoryTranscript → (A → Exec B) → Result B × MemoryTranscript
proceed (ok a, s) f = f a s
proceed (raise e, s) f = (raise e, s)

abbrev pub then_do : {A B : Type 0} → Exec A → (A → Exec B) → Exec B
then_do m f s = proceed (m s) f

abbrev pub find_message : MemoryTranscript → Text → Option Message
find_message s i = get Text-discrete i s.messages

abbrev pub find_op : MemoryTranscript → Text → Option CommittedOp
find_op s op = get Text-discrete op s.ops

-- `f"{prefix}:{run_id}:{seq}"`
unfoldable pub id_text : Text → Text → ℕ → Text
id_text prefix run_id seq = (prefix ++ 58 ∷ run_id) ++ 58 ∷ decimal seq

-- `_next_id("msg", run_id)`: the id, and the transcript with the counter moved on.
unfoldable pub next_id : Text → MemoryTranscript → Text × MemoryTranscript
unfolding id_text
next_id run_id s = (id_text (codes "msg") run_id (s.seq + 1), record s { seq = s.seq + 1 })

unfoldable pub discard : Text → List Text → List Text
discard t [] = []
discard t (x ∷ xs) = ite (Text-discrete t x) (discard t xs) (x ∷ discard t xs)

unfoldable pub inject_write_failure : Text → MemoryTranscript → MemoryTranscript
inject_write_failure op s = record s { fail_ops = op ∷ s.fail_ops }

-- `_check_fail`: an injected failure is raised once.
unfoldable pub check_fail : Text → Exec (Unit {0})
unfolding discard
check_fail op s =
    if elem Text-discrete op s.fail_ops
    then (raise recording_error, record s { fail_ops = discard op s.fail_ops })
    else (ok tt, s)

abbrev pub same_option_target : Option RecordTarget → Option RecordTarget → Bool
same_option_target none none = true
same_option_target (some a) (some b) = same RecordTarget-discrete a b
same_option_target _ _ = false

-- Without a previous receipt there is nothing to compare.
abbrev pub same_previous : Option Receipt → Option Receipt → Bool
same_previous existing none = true
same_previous existing (some r) = receipt_identity_eq existing (some r)

-- The arguments of an operation by which a replay is recognised.
pub record OpCall : Type 0 where
  pub logical_op_id : Text
  pub kind : LogicalOpKind
  pub payload : Payload
  pub run_id : Text
  pub step_no : Option ℕ
  pub record_target : Option RecordTarget
  pub previous_receipt : Option Receipt

unfoldable pub same_content : CommittedOp → OpCall → Bool
same_content existing call =
    same LogicalOpKind-discrete existing.kind call.kind && payload_eq existing.payload call.payload

unfoldable pub same_identity : CommittedOp → OpCall → Bool
same_identity existing call =
    same Text-discrete existing.run_id call.run_id
    && same OptionNat-discrete existing.step_no call.step_no
    && same_option_target existing.record_target call.record_target

-- `_replay`, of an operation that is committed.
unfoldable pub replay : CommittedOp → OpCall → Result CommittedOp
unfolding same_content same_identity
replay existing call = do
  require (same_content existing call) idempotency_error
  require (same_identity existing call) idempotency_error
  require (same_previous existing.previous_receipt call.previous_receipt) receipt_mismatch_error
  ok existing

-- `receipts[0] if receipts else message_receipt`
abbrev pub first_receipt : List MessageReceipt → Option MessageReceipt → Option MessageReceipt
first_receipt [] r = r
first_receipt (r ∷ rs) _ = some r

-- `message_receipts if message_receipts else ((message_receipt,) if ... else ())`
abbrev pub all_receipts : List MessageReceipt → Option MessageReceipt → List MessageReceipt
all_receipts [] none = []
all_receipts [] (some r) = r ∷ []
all_receipts (r ∷ rs) _ = r ∷ rs

unfoldable pub committed :
    OpCall → Option MessageReceipt → List MessageReceipt → Option BatchReceipt → CommittedOp
committed call message_receipt message_receipts batch_receipt =
    let receipts = all_receipts message_receipts message_receipt in
    record {
      kind = call.kind;
      payload = call.payload;
      run_id = call.run_id;
      step_no = call.step_no;
      record_target = call.record_target;
      previous_receipt = call.previous_receipt;
      message_receipt = first_receipt receipts message_receipt;
      message_receipts = receipts;
      batch_receipt = batch_receipt;
    }

-- `_store_op`
unfoldable pub store_op : Text → CommittedOp → MemoryTranscript → MemoryTranscript
store_op op c s = record s { ops = put Text-discrete op c s.ops }

abbrev pub or_empty : Option (List Text) → List Text
or_empty none = []
or_empty (some ids) = ids

-- `_order.get(target, [])`
abbrev pub ids_of : MemoryTranscript → Text → List Text
ids_of s target = or_empty (get Text-discrete target s.order)

-- `_append`, of a message with the id `i`.
unfoldable pub append : RecordTarget → Text → Message → MemoryTranscript → MemoryTranscript
append target i m s = record s {
  messages = put Text-discrete i m s.messages;
  order = put Text-discrete target.value (ids_of s target.value ++ i ∷ []) s.order;
  version = s.version + 1;
}

-- `_replace`, of a message with the id `i`.
unfoldable pub replace : Text → Message → Exec (Unit {0})
replace i m s = elim (find_message s i) [
  | none ↦ (raise message_not_found_error, s)
  | some _ ↦
      (ok tt, record s { messages = put Text-discrete i m s.messages; version = s.version + 1 })
]
