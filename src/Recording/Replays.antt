-- ===== src/Recording/Replays.antt =====
-- What `MemoryTranscript` of src/agent_runtime/recording.py answers to an operation id that is committed.
use coresmos.Prelude.{
  ◌⊎◌, Option-cases, ◌≡◌, refl, sym, ◌∙◌, true, false, none, some, Text-discrete, elem, codes, ◌++◌,
  inl, inr, Bool-cases,
}
use mathlib.Core.Bool.{false≢true}
use coresmos.Errors.{Result, ok, raise, idempotency_error, receipt_mismatch_error}
use coresmos.Contracts.Enums.{LogicalOpKind}
use coresmos.Contracts.Receipts.{MessageReceipt, BatchReceipt}
use coresmos.Recording.Payloads.{Payload, Receipt}
use coresmos.Recording.Store.{
  MemoryTranscript, CommittedOp, Exec, find_op, OpCall, replay, same_content, same_identity,
  same_previous,
}
use coresmos.Recording.Operations.{
  with_op, as_message, as_batch, is_known, message_again, batch_again, results_again, record_input,
  record_text_delta, record_text_final,
}
use coresmos.Recording.Batches.{record_tool_calls, record_tool_results}
use coresmos.Recording.Runs.{finalize_run, status_text}
use coresmos.Recording.Facts.{IsValid}
use coresmos.Recording.Sameness.{Same, checks-Same, Same-checks}
use coresmos.Recording.Retries.{with_op-committed}
use coresmos.Recording.Histories.{
  Call, input, text_delta, text_final, tool_calls, tool_results, finalize, perform, forget,
}

-- The id of an operation, and by what a second call of it is known to be the same.
abbrev pub call_of : Call → OpCall
call_of (input run_id target message op) = record {
  logical_op_id = op;
  kind = LogicalOpKind.input;
  payload = Payload.input message;
  run_id = run_id;
  step_no = none;
  record_target = some target;
  previous_receipt = none;
}
call_of (text_delta run_id step_no target text op attempt previous) = record {
  logical_op_id = op;
  kind = LogicalOpKind.text_delta;
  payload = Payload.text_delta text attempt;
  run_id = run_id;
  step_no = some step_no;
  record_target = some target;
  previous_receipt = as_message previous;
}
call_of (text_final run_id step_no target text reasoning calls op attempt previous) = record {
  logical_op_id = op;
  kind = LogicalOpKind.text_final;
  payload = Payload.text_final text reasoning calls attempt;
  run_id = run_id;
  step_no = some step_no;
  record_target = some target;
  previous_receipt = as_message previous;
}
call_of (tool_calls run_id step_no target calls text reasoning op previous attempt) = record {
  logical_op_id = op;
  kind = LogicalOpKind.tool_calls;
  payload = Payload.tool_calls calls text reasoning;
  run_id = run_id;
  step_no = some step_no;
  record_target = some target;
  previous_receipt = as_batch previous;
}
call_of (tool_results run_id step_no target results op previous) = record {
  logical_op_id = op;
  kind = LogicalOpKind.tool_results;
  payload = Payload.tool_results results;
  run_id = run_id;
  step_no = some step_no;
  record_target = some target;
  previous_receipt = some (Receipt.batch previous);
}
call_of (finalize run_id status) = record {
  logical_op_id = (run_id ++ codes ":finalize:") ++ status_text status;
  kind = LogicalOpKind.run_final;
  payload = Payload.run_final status;
  run_id = run_id;
  step_no = none;
  record_target = none;
  previous_receipt = none;
}

-- The answer to a call whose operation id is committed; the transcript is as it was.
pub data Replays (call : OpCall) (c : CommittedOp) (s : MemoryTranscript)
    : Result (Unit {0}) × MemoryTranscript → Type 0 where
  replayed :
      Same call c
      → same_previous c.previous_receipt call.previous_receipt ≡ true
      → Replays call c s (ok tt, s)
  other_receipt :
      Same call c
      → same_previous c.previous_receipt call.previous_receipt ≡ false
      → Replays call c s (raise receipt_mismatch_error, s)
  conflict : (Same call c → ⊥) → Replays call c s (raise idempotency_error, s)

-- The replay of a committed operation, and its answer when it is the same call.
replay-cases :
    (call : OpCall) (c : CommittedOp)
    → (Same call c
        × (same_previous c.previous_receipt call.previous_receipt ≡ true)
        × (replay c call ≡ ok c))
      ⊎ ((Same call c
            × (same_previous c.previous_receipt call.previous_receipt ≡ false)
            × (replay c call ≡ raise receipt_mismatch_error))
          ⊎ ((Same call c → ⊥) × (replay c call ≡ raise idempotency_error)))
unfolding replay
replay-cases call c = elim (Bool-cases (same_content c call)) [
  | inr e ↦ inr (inr ((λ h. false≢true (sym e ∙ (Same-checks call c h).0)), rw (e, replay) refl))
  | inl e ↦ elim (Bool-cases (same_identity c call)) [
    | inr f ↦
        inr (inr ((λ h. false≢true (sym f ∙ (Same-checks call c h).1)), rw (e, f, replay) refl))
    | inl f ↦ elim (Bool-cases (same_previous c.previous_receipt call.previous_receipt)) [
      | inl g ↦ inl (checks-Same call c e f, g, rw (e, f, g, replay) refl)
      | inr g ↦ inr (inl (checks-Same call c e f, g, rw (e, f, g, replay) refl))
    ]
  ]
]

forget-Replays :
    {A : Type 0} {call : OpCall} (again : CommittedOp → Result A) (fresh : Exec A)
    {s : MemoryTranscript} {c : CommittedOp}
    → elem Text-discrete call.logical_op_id s.fail_ops ≡ false
    → find_op s call.logical_op_id ≡ some c
    → (Same call c → (a : A) × (again c ≡ ok a))
    → Replays call c s (forget (with_op call again fresh) s)
forget-Replays {call} again fresh {s} {c} clear found answers =
    rw (with_op-committed call again fresh s c clear found) (elim (replay-cases call c) [
      | inl (h, g, e) ↦ let (a, k) = answers h in rw (e, k) (replayed h g)
      | inr (inl (h, g, e)) ↦ rw e (other_receipt h g)
      | inr (inr (h, e)) ↦ rw e (conflict h)
    ])

message_answers :
    (c : CommittedOp)
    → is_known c.message_receipt ≡ true
    → (r : MessageReceipt) × (message_again c ≡ ok r)
message_answers c h = elim (Option-cases c.message_receipt) [
  | inl e ↦ absurd (false≢true (rw e at h))
  | inr (r, e) ↦ (record r { created = false }, rw e refl)
]

batch_answers :
    (c : CommittedOp)
    → is_known c.batch_receipt ≡ true
    → (r : BatchReceipt) × (batch_again c ≡ ok r)
batch_answers c h = elim (Option-cases c.batch_receipt) [
  | inl e ↦ absurd (false≢true (rw e at h))
  | inr (r, e) ↦ (record r { created = false }, rw e refl)
]

-- An operation whose id is committed in a valid transcript, with no failure injected for it, changes
-- nothing. It returns if it is of the committed kind, run, step and target, with an equal payload and
-- no other previous receipt; another previous receipt is a ReceiptMismatchError, and everything else
-- an IdempotencyError.
pub perform-Replays :
    (o : Call) (s : MemoryTranscript) (c : CommittedOp)
    → IsValid s
    → elem Text-discrete (call_of o).logical_op_id s.fail_ops ≡ false
    → find_op s (call_of o).logical_op_id ≡ some c
    → Replays (call_of o) c s (perform o s)
unfolding perform record_input record_text_delta record_text_final record_tool_calls
    record_tool_results finalize_run
perform-Replays (input run_id target message op) s c v clear found =
    forget-Replays message_again _ clear found
      (λ h. message_answers c (rw h.kind at (v.receipts op c found)))
perform-Replays (text_delta run_id step_no target text op attempt previous) s c v clear found =
    forget-Replays message_again _ clear found
      (λ h. message_answers c (rw h.kind at (v.receipts op c found)))
perform-Replays (text_final run_id step_no target text reasoning calls op attempt previous) s c v
      clear found =
    forget-Replays message_again _ clear found
      (λ h. message_answers c (rw h.kind at (v.receipts op c found)))
perform-Replays (tool_calls run_id step_no target calls text reasoning op previous attempt) s c v
      clear found =
    forget-Replays batch_again _ clear found
      (λ h. batch_answers c (rw h.kind at (v.receipts op c found)))
perform-Replays (tool_results run_id step_no target results op previous) s c v clear found =
    forget-Replays results_again _ clear found (λ _. (_, refl))
perform-Replays (finalize run_id status) s c v clear found =
    forget-Replays (λ _. ok tt) _ clear found (λ _. (tt, refl))
