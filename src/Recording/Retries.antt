-- ===== src/Recording/Retries.antt =====
-- A call that returned may be made again: the same receipts come back, and nothing is written.
use coresmos.Prelude.{
  ℕ, ◌==◌, ◌≡◌, refl, Bool, true, false, if_pos, if◌then◌else◌, Option, none, some, List, get, Text,
  Text-discrete, elem, inl, inr, arith, Bool-cases,
}
use coresmos.Errors.{Result, ok, ◌>>=◌}
use coresmos.Contracts.Enums.{LogicalOpKind-discrete}
use coresmos.Contracts.Receipts.{RecordTarget, MessageReceipt, BatchReceipt}
use coresmos.Recording.Payloads.{
  Payload, payload_eq, Receipt, same, receipt_identity_eq, message_identity_eq, batch_identity_eq,
  OptionNat-discrete, RecordTarget-discrete, OptionText-discrete, CallRecords-discrete,
}
use coresmos.Recording.Store.{
  MemoryTranscript, CommittedOp, Exec, find_op, check_fail, OpCall, replay, committed, same_content,
  same_identity, same_previous, same_option_target,
}
use coresmos.Recording.Operations.{with_op}

pub same_self {ℓ} : {A : Type ℓ} (dec : Discrete A) (a : A) → same dec a a ≡ true
same_self dec a = if_pos (dec a a) refl true false

nat_self : (n : ℕ) → (n == n) ≡ true
nat_self n = ground arith

flag_self : (b : Bool) → (if b then b else true) ≡ true
flag_self true = refl
flag_self false = refl

message_identity_self : (r : MessageReceipt) → message_identity_eq r r ≡ true
unfolding message_identity_eq
message_identity_self r = rw (
  same_self Text-discrete r.message_id,
  same_self Text-discrete r.run_id,
  same_self OptionNat-discrete r.step_no,
  same_self RecordTarget-discrete r.record_target,
  same_self Text-discrete r.logical_op_id,
)

batch_identity_self : (r : BatchReceipt) → batch_identity_eq r r ≡ true
unfolding batch_identity_eq
batch_identity_self r = elim (Bool-cases r.recording_required) [
  | inl e ↦ rw (
    e,
    same_self Text-discrete r.run_id,
    nat_self r.step_no,
    same_self RecordTarget-discrete r.record_target,
    same_self Text-discrete r.logical_op_id,
    same_self CallRecords-discrete r.calls,
    same_self OptionText-discrete r.assistant_message_id,
  )
  | inr e ↦ rw (
    e,
    same_self Text-discrete r.run_id,
    nat_self r.step_no,
    same_self RecordTarget-discrete r.record_target,
    same_self Text-discrete r.logical_op_id,
    same_self CallRecords-discrete r.calls,
    same_self OptionText-discrete r.assistant_message_id,
  )
]

same_previous_self : (r : Option Receipt) → same_previous r r ≡ true
unfolding receipt_identity_eq
same_previous_self none = refl
same_previous_self (some (Receipt.message r)) = message_identity_self r
same_previous_self (some (Receipt.batch r)) = batch_identity_self r

target_self : (t : Option RecordTarget) → same_option_target t t ≡ true
target_self none = refl
target_self (some t) = same_self RecordTarget-discrete t

module _ (call : OpCall) (equal : payload_eq call.payload call.payload ≡ true) where
  -- An operation is replayed by the call that committed it.
  pub replay-committed :
      (m : Option MessageReceipt) (ms : List MessageReceipt) (b : Option BatchReceipt)
      → replay (committed call m ms b) call ≡ ok (committed call m ms b)
  unfolding replay committed same_content same_identity
  replay-committed m ms b = rw (
    same_self LogicalOpKind-discrete call.kind,
    equal,
    same_self Text-discrete call.run_id,
    same_self OptionNat-discrete call.step_no,
    target_self call.record_target,
    same_previous_self call.previous_receipt,
  )

module _ {A : Type 0} (call : OpCall) (again : CommittedOp → Result A) (fresh : Exec A)
    (s : MemoryTranscript) (c : CommittedOp) where
  -- A committed operation is answered from its record.
  pub with_op-committed :
      elem Text-discrete call.logical_op_id s.fail_ops ≡ false
      → find_op s call.logical_op_id ≡ some c
      → with_op call again fresh s ≡ (replay c call >>= again, s)
  unfolding with_op check_fail get replay
  with_op-committed clear found = rw (clear, found)

pub delta_self :
    (text : Text) (attempt : ℕ)
    → payload_eq (Payload.text_delta text attempt) (Payload.text_delta text attempt) ≡ true
unfolding payload_eq
delta_self text attempt = rw (same_self Text-discrete text, nat_self attempt)
