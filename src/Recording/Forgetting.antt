-- ===== src/Recording/Forgetting.antt =====
-- A final text that is recorded again without the receipt of its last delta.
use coresmos.Prelude.{
  ℕ, ◌≡◌, refl, ap, ◌∙◌, true, false, Option, none, some, List, [], Text, Text-discrete, elem,
}
use coresmos.Errors.{
  ok, require, idempotency_error, receipt_mismatch_error, ◌>>=◌, >>=-returns, >>-returns,
}
use coresmos.Contracts.Enums.{LogicalOpKind}
use coresmos.Contracts.Messages.{ToolCall}
use coresmos.Contracts.Receipts.{RecordTarget, MessageReceipt}
use coresmos.Recording.Payloads.{Payload, payload_eq}
use coresmos.Recording.Store.{
  MemoryTranscript, CommittedOp, Exec, find_op, OpCall, replay, committed, same_content,
  same_identity, same_previous,
}
use coresmos.Recording.Operations.{
  record_text_final, with_op, message_again, known_previous, assistant, as_message,
}
use coresmos.Recording.Facts.{IsValid, Kept, Ends}
use coresmos.Recording.Steps.{Ends-map, Ends-lift, Ends-with_op}
use coresmos.Recording.Retries.{with_op-committed, replay-committed}
use coresmos.Recording.Again.{not_created, message_again_lem, write_text-Stored}

abbrev forgetting : OpCall → OpCall
forgetting call = record call { previous_receipt = none }

-- A replay that returned returns the same without its previous receipt.
replay-forgetting :
    (c : CommittedOp) (call : OpCall) (c' : CommittedOp)
    → replay c call ≡ ok c'
    → replay c (forgetting call) ≡ ok c'
unfolding replay same_content same_identity
replay-forgetting c call c' h =
    let (p, h1) = >>-returns (require (same_content c call) idempotency_error) _ c' h in
    let (q, h2) = >>-returns (require (same_identity c call) idempotency_error) _ c' h1 in
    let (_, e) =
      >>-returns
        (require (same_previous c.previous_receipt call.previous_receipt) receipt_mismatch_error)
        (ok c) c' h2 in
    rw (p, q) e

module _ (call : OpCall) (fresh' : Exec MessageReceipt) (s : MemoryTranscript)
    (clear : elem Text-discrete call.logical_op_id s.fail_ops ≡ false) where
  -- What a committed call answers.
  forgotten :
      (c : CommittedOp)
      → find_op s call.logical_op_id ≡ some c
      → (b : MessageReceipt) → (replay c call >>= message_again) ≡ ok b
      → with_op (forgetting call) message_again fresh' s ≡ (ok (not_created b), s)
  forgotten c found b e =
      let (c', p, q) = >>=-returns (replay c call) message_again e in
      with_op-committed (forgetting call) message_again fresh' s c clear found
      ∙ ap (λ r. (r, s))
          (rw (replay-forgetting c call c' p) (q ∙ rw (message_again_lem c' b q) refl))

abbrev final_call :
    Text
    → ℕ
    → RecordTarget
    → Option Text
    → Option Text
    → List ToolCall
    → Text
    → ℕ
    → Option MessageReceipt
    → OpCall
final_call run_id step_no target text reasoning calls op attempt previous = record {
  logical_op_id = op;
  kind = LogicalOpKind.text_final;
  payload = Payload.text_final text reasoning calls attempt;
  run_id = run_id;
  step_no = some step_no;
  record_target = some target;
  previous_receipt = as_message previous;
}

-- In a valid transcript, recording the same final text again without a previous receipt, after it
-- returned, gives its receipt with `created` false and leaves the transcript as it is, when the
-- payload equals itself.
pub record_text_final-forgetting :
    (run_id : Text) (step_no : ℕ) (target : RecordTarget) (text reasoning : Option Text)
    (calls : List ToolCall) (op : Text) (attempt : ℕ) (previous : Option MessageReceipt)
    (s : MemoryTranscript)
    → IsValid s
    → payload_eq
        (Payload.text_final text reasoning calls attempt)
        (Payload.text_final text reasoning calls attempt)
      ≡ true
    → Ends
        (Kept s)
        (λ r s'.
          record_text_final run_id step_no target text reasoning calls op attempt none s'
          ≡ (ok (not_created r), s'))
        (record_text_final run_id step_no target text reasoning calls op attempt previous s)
unfolding record_text_final
record_text_final-forgetting run_id step_no target text reasoning calls op attempt previous s v
      equal =
    let call = final_call run_id step_no target text reasoning calls op attempt previous in
    Ends-with_op s call message_again _ (λ clear c found b e. forgotten call _ s clear c found b e)
      (λ clear fresh. Ends-lift s (known_previous previous) _ (λ _ _.
        Ends-map (λ _ k. k)
          (λ r s' g.
            forgotten call _ s' (rw g.same_fails clear) _ g.found (not_created r)
              (rw (replay-committed call equal (some r) [] none) (unfold committed in refl)))
          (write_text-Stored _ run_id step_no target attempt (assistant text reasoning calls) _ s v
            (λ m. refl))))
