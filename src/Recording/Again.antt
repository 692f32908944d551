-- ===== src/Recording/Again.antt =====
-- Making a call of the transcript again, operation by operation.
use coresmos.Prelude.{
  ℕ, ◌≡◌, refl, ap, ◌∙◌, Bool, true, false, Option, none, some, List, [], Text, Text-discrete, elem,
  inl, inr, Option-cases,
}
use coresmos.Errors.{Result, ok, ◌>>=◌, >>=-returns}
use coresmos.Contracts.Messages.{ToolCall, Message}
use coresmos.Contracts.Receipts.{RecordTarget, MessageReceipt, BatchReceipt}
use coresmos.Recording.Payloads.{Payload, payload_eq}
use coresmos.Recording.Store.{
  MemoryTranscript, CommittedOp, Exec, find_op, next_id, OpCall, replay, committed, store_op,
  append,
}
use coresmos.Recording.Operations.{
  with_op, message_again, batch_again, record_input, record_text_delta, record_text_final,
  write_text, upsert, known_message, known_previous, assistant,
}
use coresmos.Recording.Batches.{record_tool_calls, write_batch, known_batch, unrecorded}
use coresmos.Recording.Facts.{IsValid, Kept, Ends, returned, Ends-then_do}
use coresmos.Recording.Writing.{bump}
use coresmos.Recording.Steps.{Ends-map, Ends-lift, Ends-with_op}
use coresmos.Recording.Texts.{fresh_id, upsert-Ends, find-store_op}
use coresmos.Recording.Retries.{delta_self, with_op-committed, replay-committed}

-- The receipt of a call that was made before.
abbrev pub not_created : MessageReceipt → MessageReceipt
not_created r = record r { created = false }

abbrev pub batch_not_created : BatchReceipt → BatchReceipt
batch_not_created r = record r { created = false }

pub message_again_lem :
    (c : CommittedOp) (b : MessageReceipt) → message_again c ≡ ok b → not_created b ≡ b
message_again_lem c b h = elim (Option-cases c.message_receipt) [
  | inl e ↦ absurd (cc (rw e at h))
  | inr (r, e) ↦ is_r r (rw e at h)
]
  where
    is_r : (r : MessageReceipt) → ok (not_created r) ≡ ok b → not_created b ≡ b
    is_r r p = cc

batch_again_lem :
    (c : CommittedOp) (b : BatchReceipt) → batch_again c ≡ ok b → batch_not_created b ≡ b
batch_again_lem c b h = elim (Option-cases c.batch_receipt) [
  | inl e ↦ absurd (cc (rw e at h))
  | inr (r, e) ↦ is_r r (rw e at h)
]
  where
    is_r : (r : BatchReceipt) → ok (batch_not_created r) ≡ ok b → batch_not_created b ≡ b
    is_r r p = cc

module _ {A : Type 0} (call : OpCall) (again : CommittedOp → Result A) (fresh : Exec A)
    (mark : A → A) (s : MemoryTranscript)
    (clear : elem Text-discrete call.logical_op_id s.fail_ops ≡ false) where
  held_again :
      (plain : (c : CommittedOp) (b : A) → again c ≡ ok b → mark b ≡ b) (c : CommittedOp)
      → find_op s call.logical_op_id ≡ some c
      → (b : A) → (replay c call >>= again) ≡ ok b
      → with_op call again fresh s ≡ (ok (mark b), s)
  held_again plain c found b e =
      let (c', _, e') = >>=-returns (replay c call) again e in
      with_op-committed call again fresh s c clear found
      ∙ ap (λ r. (r, s)) (e ∙ rw (plain c' b e') refl)

  stored_again :
      payload_eq call.payload call.payload ≡ true
      → (m : Option MessageReceipt) (ms : List MessageReceipt) (b : Option BatchReceipt) (a : A)
      → find_op s call.logical_op_id ≡ some (committed call m ms b)
      → again (committed call m ms b) ≡ ok (mark a)
      → with_op call again fresh s ≡ (ok (mark a), s)
  stored_again equal m ms b a found e =
      with_op-committed call again fresh s (committed call m ms b) clear found
      ∙ ap (λ r. (r, s)) (rw (replay-committed call equal m ms b) e)

-- A retry that finds the call in the state it left.
abbrev Again : {A : Type 0} → (A → A) → Exec A → A → MemoryTranscript → Type 0
Again mark op a s = op s ≡ (ok (mark a), s)

abbrev input_receipt : Text → RecordTarget → Text → Text → MessageReceipt
input_receipt run_id target op i = record {
  message_id = i;
  run_id = run_id;
  step_no = none;
  record_target = target;
  logical_op_id = op;
  created = true;
}

-- Making the same call to record an input again, after it returned, gives its receipt with `created`
-- false and leaves the transcript as it is, when the payload equals itself.
pub record_input-again :
    (run_id : Text) (target : RecordTarget) (message : Message) (op : Text) (s : MemoryTranscript)
    → payload_eq (Payload.input message) (Payload.input message) ≡ true
    → Ends
        (Kept s)
        (λ r s'. record_input run_id target message op s' ≡ (ok (not_created r), s'))
        (record_input run_id target message op s)
unfolding record_input next_id append
record_input-again run_id target message op s equal =
    Ends-with_op s _ message_again _
      (λ clear c found b e.
        held_again _ message_again _ not_created s clear message_again_lem c found b e)
      (λ clear fresh.
        let i = fresh_id run_id s in
        let s2 = append target i (record message { message_id = some i }) (bump s) in
        returned (input_receipt run_id target op i) _ (
          stored_again _ message_again _ not_created _ (unfold store_op in clear) equal
            (some (input_receipt run_id target op i)) [] none (input_receipt run_id target op i)
            (find-store_op s2 op _) (unfold committed in refl)))

-- What is left by an operation that wrote a message.
pub record Stored (s : MemoryTranscript) (op : Text) (c : CommittedOp) (s' : MemoryTranscript)
    : Type 0 where
  pub same_fails : s'.fail_ops ≡ s.fail_ops
  pub found : find_op s' op ≡ some c

pub write_text-Stored :
    (call : OpCall) (run_id : Text) (step_no : ℕ) (target : RecordTarget) (attempt : ℕ)
    (new : Message) (change : Message → Message) (s : MemoryTranscript)
    → IsValid s
    → ((m : Message) → (change m).message_id ≡ m.message_id)
    → Ends
        (Kept s)
        (λ r s'. Stored s call.logical_op_id (committed call (some r) [] none) s')
        (write_text call run_id step_no target attempt new change s)
unfolding write_text
write_text-Stored call run_id step_no target attempt new change s v own =
    Ends-then_do (upsert _ target new change) _ s (upsert-Ends _ target new change s v own)
      (λ w s' (g, _). returned _ _ (record {
        same_fails = unfold store_op in g.same_fails;
        found = find-store_op s' call.logical_op_id _;
      }))

-- In a valid transcript, making the same call to record a text delta again, after it returned, gives
-- its receipt with `created` false and leaves the transcript as it is.
pub record_text_delta-again :
    (run_id : Text) (step_no : ℕ) (target : RecordTarget) (text op : Text) (attempt : ℕ)
    (previous : Option MessageReceipt) (s : MemoryTranscript)
    → IsValid s
    → Ends
        (Kept s)
        (λ r s'.
          record_text_delta run_id step_no target text op attempt previous s'
          ≡ (ok (not_created r), s'))
        (record_text_delta run_id step_no target text op attempt previous s)
unfolding record_text_delta
record_text_delta-again run_id step_no target text op attempt previous s v =
    Ends-with_op s _ message_again _
      (λ clear c found b e.
        held_again _ message_again _ not_created s clear message_again_lem c found b e)
      (λ clear fresh. Ends-lift s (known_message previous) _ (λ _ _.
        Ends-map (λ _ k. k)
          (λ r s' g.
            stored_again _ message_again _ not_created s' (rw g.same_fails clear)
              (delta_self text attempt) (some r) [] none r g.found (unfold committed in refl))
          (write_text-Stored _ run_id step_no target attempt (assistant (some text) none []) _ s v
            (λ m. refl))))

-- In a valid transcript, making the same call to record a final text again, after it returned, gives
-- its receipt with `created` false and leaves the transcript as it is, when the payload equals
-- itself.
pub record_text_final-again :
    (run_id : Text) (step_no : ℕ) (target : RecordTarget) (text reasoning : Option Text)
    (calls : List ToolCall) (op : Text) (attempt : ℕ) (previous : Option MessageReceipt)
    (s : MemoryTranscript)
    → IsValid s
    → payload_eq
        (Payload.text_final text reasoning calls attempt)
        (Payload.text_final text reasoning calls attempt)
      ≡ true
    → Ends
        (Kept s)
        (λ r s'.
          record_text_final run_id step_no target text reasoning calls op attempt previous s'
          ≡ (ok (not_created r), s'))
        (record_text_final run_id step_no target text reasoning calls op attempt previous s)
unfolding record_text_final
record_text_final-again run_id step_no target text reasoning calls op attempt previous s v equal =
    Ends-with_op s _ message_again _
      (λ clear c found b e.
        held_again _ message_again _ not_created s clear message_again_lem c found b e)
      (λ clear fresh. Ends-lift s (known_previous previous) _ (λ _ _.
        Ends-map (λ _ k. k)
          (λ r s' g.
            stored_again _ message_again _ not_created s' (rw g.same_fails clear) equal (some r) []
              none r g.found (unfold committed in refl))
          (write_text-Stored _ run_id step_no target attempt (assistant text reasoning calls) _ s v
            (λ m. refl))))

write_batch-Stored :
    (call : OpCall) (step_no : ℕ) (target : RecordTarget) (calls : List ToolCall)
    (text reasoning : Option Text) (attempt : ℕ) (outside : Bool) (s : MemoryTranscript)
    → IsValid s
    → Ends
        (Kept s)
        (λ r s'. Stored s call.logical_op_id (committed call none [] (some r)) s')
        (write_batch call step_no target calls text reasoning attempt outside s)
unfolding write_batch
write_batch-Stored call step_no target calls text reasoning attempt true s v =
    returned _ _ (record {
      same_fails = unfold store_op in refl;
      found = find-store_op s call.logical_op_id _;
    })
write_batch-Stored call step_no target calls text reasoning attempt false s v =
    Ends-then_do (upsert _ target (assistant text reasoning calls) _) _ s
      (upsert-Ends _ target (assistant text reasoning calls) _ s v (λ m. refl))
      (λ w s' (g, _). returned _ _ (record {
        same_fails = unfold store_op in g.same_fails;
        found = find-store_op s' call.logical_op_id _;
      }))

-- In a valid transcript, making the same call to record a batch of tool calls again, after it
-- returned, gives its receipt with `created` false and leaves the transcript as it is, when the
-- payload equals itself, be the batch recorded or not.
pub record_tool_calls-again :
    (run_id : Text) (step_no : ℕ) (target : RecordTarget) (calls : List ToolCall)
    (text reasoning : Option Text) (op : Text) (previous : Option BatchReceipt) (attempt : ℕ)
    (s : MemoryTranscript)
    → IsValid s
    → payload_eq (Payload.tool_calls calls text reasoning) (Payload.tool_calls calls text reasoning)
      ≡ true
    → Ends
        (Kept s)
        (λ r s'.
          record_tool_calls run_id step_no target calls text reasoning op previous attempt s'
          ≡ (ok (batch_not_created r), s'))
        (record_tool_calls run_id step_no target calls text reasoning op previous attempt s)
unfolding record_tool_calls
record_tool_calls-again run_id step_no target calls text reasoning op previous attempt s v equal =
    Ends-with_op s _ batch_again _
      (λ clear c found b e.
        held_again _ batch_again _ batch_not_created s clear batch_again_lem c found b e)
      (λ clear fresh. Ends-lift s (known_batch previous) _ (λ _ _.
        Ends-lift s (unrecorded calls) _ (λ outside _.
          Ends-map (λ _ k. k)
            (λ r s' g.
              stored_again _ batch_again _ batch_not_created s' (rw g.same_fails clear) equal none
                [] (some r) r g.found (unfold committed in refl))
            (write_batch-Stored _ step_no target calls text reasoning attempt outside s v))))
