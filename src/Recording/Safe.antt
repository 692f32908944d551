-- ===== src/Recording/Safe.antt =====
-- Every operation of the transcript keeps it valid, and takes no fact back.
use coresmos.Prelude.{
  ℕ, ◌≡◌, refl, Bool, true, false, Option, none, some, List, [], Text, Text-discrete, Bool-cases,
  put, inl, inr,
}
use coresmos.Errors.{Result}
use coresmos.Contracts.Enums.{RunStatus}
use coresmos.Contracts.Messages.{ToolCall, ToolResult, Message}
use coresmos.Contracts.Receipts.{RecordTarget, MessageReceipt, BatchReceipt}
use coresmos.Recording.Store.{
  MemoryTranscript, CommittedOp, find_op, next_id, OpCall, committed, store_op, append,
}
use coresmos.Recording.Operations.{
  record_input, record_text_delta, record_text_final, write_text, upsert, known_message,
  known_previous, assistant, message_again, batch_again,
}
use coresmos.Recording.Batches.{
  record_tool_calls, record_tool_results, write_batch, write_results, stage, known_batch,
  unrecorded, stored_batch,
}
use coresmos.Recording.Runs.{finalize_run}
use coresmos.Recording.Facts.{
  has_receipt, IsValid, Kept, Kept-refl, Kept-Extends, Ends, returned, Ends-then_do,
}
use coresmos.Recording.Writing.{Grows, Grows-refl, Grows-trans}
use coresmos.Recording.Steps.{Ends-lift, Ends-with_op}
use coresmos.Recording.Texts.{fresh_id, append_fresh-Grows, store_op-Grows, upsert-Ends}
use coresmos.Recording.Staging.{stage-Ends, append_staged-Grows}

-- An operation ends safely: after an exception every committed fact is as it was; after a return the
-- transcript is valid and holds what it held.
abbrev pub IsSafe : {A : Type 0} → MemoryTranscript → Result A × MemoryTranscript → Type 0
IsSafe s r = Ends (Kept s) (λ _ s'. Grows s s') r

-- An operation that is stored after its messages were written.
store_after-Grows :
    {s s' : MemoryTranscript} (op : Text) (c : CommittedOp)
    → Grows s s'
    → s'.ops ≡ s.ops
    → find_op s op ≡ none
    → has_receipt c.kind c ≡ true
    → Grows s (store_op op c s')
store_after-Grows {s} {s'} op c g same_ops fresh held =
    Grows-trans g (store_op-Grows s' op c g.valid (rw same_ops fresh) held)

pub record_input-IsSafe :
    (run_id : Text) (target : RecordTarget) (message : Message) (op : Text) (s : MemoryTranscript)
    → IsValid s
    → IsSafe s (record_input run_id target message op s)
unfolding record_input next_id
record_input-IsSafe run_id target message op s v =
    Ends-with_op s _ message_again _ (λ _ _ _ _ _. Grows-refl v)
      (λ _ fresh. returned _ _ (
        store_after-Grows op _
          (append_fresh-Grows run_id target
            (record message { message_id = some (fresh_id run_id s) }) v refl)
          (unfold append in refl) fresh (unfold committed in refl)))

write_text-IsSafe :
    (call : OpCall) (run_id : Text) (step_no : ℕ) (target : RecordTarget) (attempt : ℕ)
    (new : Message) (change : Message → Message) (s : MemoryTranscript)
    → IsValid s
    → find_op s call.logical_op_id ≡ none
    → ((m : Message) → (change m).message_id ≡ m.message_id)
    → ((r : MessageReceipt) → has_receipt call.kind (committed call (some r) [] none) ≡ true)
    → IsSafe s (write_text call run_id step_no target attempt new change s)
unfolding write_text
write_text-IsSafe call run_id step_no target attempt new change s v fresh own held =
    Ends-then_do (upsert _ target new change) _ s (upsert-Ends _ target new change s v own)
      (λ w s' (g, _).
        returned _ _ (store_after-Grows call.logical_op_id _ g.grows g.same_ops fresh (held _)))

pub record_text_delta-IsSafe :
    (run_id : Text) (step_no : ℕ) (target : RecordTarget) (text op : Text) (attempt : ℕ)
    (previous : Option MessageReceipt) (s : MemoryTranscript)
    → IsValid s
    → IsSafe s (record_text_delta run_id step_no target text op attempt previous s)
unfolding record_text_delta
record_text_delta-IsSafe run_id step_no target text op attempt previous s v =
    Ends-with_op s _ message_again _ (λ _ _ _ _ _. Grows-refl v)
      (λ _ fresh. Ends-lift s (known_message previous) _ (λ _ _.
        write_text-IsSafe _ run_id step_no target attempt (assistant (some text) none []) _ s v
          fresh (λ m. refl) (λ r. unfold committed in refl)))

pub record_text_final-IsSafe :
    (run_id : Text) (step_no : ℕ) (target : RecordTarget) (text reasoning : Option Text)
    (calls : List ToolCall) (op : Text) (attempt : ℕ) (previous : Option MessageReceipt)
    (s : MemoryTranscript)
    → IsValid s
    → IsSafe s (record_text_final run_id step_no target text reasoning calls op attempt previous s)
unfolding record_text_final
record_text_final-IsSafe run_id step_no target text reasoning calls op attempt previous s v =
    Ends-with_op s _ message_again _ (λ _ _ _ _ _. Grows-refl v)
      (λ _ fresh. Ends-lift s (known_previous previous) _ (λ _ _.
        write_text-IsSafe _ run_id step_no target attempt (assistant text reasoning calls) _ s v
          fresh (λ m. refl) (λ r. unfold committed in refl)))

write_batch-IsSafe :
    (call : OpCall) (step_no : ℕ) (target : RecordTarget) (calls : List ToolCall)
    (text reasoning : Option Text) (attempt : ℕ) (outside : Bool) (s : MemoryTranscript)
    → IsValid s
    → find_op s call.logical_op_id ≡ none
    → ((r : BatchReceipt) → has_receipt call.kind (committed call none [] (some r)) ≡ true)
    → IsSafe s (write_batch call step_no target calls text reasoning attempt outside s)
unfolding write_batch
write_batch-IsSafe call step_no target calls text reasoning attempt true s v fresh held =
    returned _ _ (store_after-Grows call.logical_op_id _ (Grows-refl v) refl fresh (held _))
write_batch-IsSafe call step_no target calls text reasoning attempt false s v fresh held =
    Ends-then_do (upsert _ target (assistant text reasoning calls) _) _ s
      (upsert-Ends _ target (assistant text reasoning calls) _ s v (λ m. refl))
      (λ w s' (g, _).
        returned _ _ (store_after-Grows call.logical_op_id _ g.grows g.same_ops fresh (held _)))

pub record_tool_calls-IsSafe :
    (run_id : Text) (step_no : ℕ) (target : RecordTarget) (calls : List ToolCall)
    (text reasoning : Option Text) (op : Text) (previous : Option BatchReceipt) (attempt : ℕ)
    (s : MemoryTranscript)
    → IsValid s
    → IsSafe s (record_tool_calls run_id step_no target calls text reasoning op previous attempt s)
unfolding record_tool_calls
record_tool_calls-IsSafe run_id step_no target calls text reasoning op previous attempt s v =
    Ends-with_op s _ batch_again _ (λ _ _ _ _ _. Grows-refl v)
      (λ _ fresh. Ends-lift s (known_batch previous) _ (λ _ _.
        Ends-lift s (unrecorded calls) _ (λ outside _.
          write_batch-IsSafe _ step_no target calls text reasoning attempt outside s v fresh
            (λ r. unfold committed in refl))))

write_results-IsSafe :
    (call : OpCall) (step_no : ℕ) (target : RecordTarget) (results : List ToolResult)
    (stored : BatchReceipt) (s : MemoryTranscript)
    → IsValid s
    → find_op s call.logical_op_id ≡ none
    → ((rs : List MessageReceipt) → has_receipt call.kind (committed call none rs none) ≡ true)
    → IsSafe s (write_results call step_no target results stored s)
unfolding write_results
write_results-IsSafe call step_no target results stored s v fresh held =
    elim (Bool-cases stored.recording_required) [
      | inl e ↦ rw e (
          Ends-then_do (stage call.run_id stored.calls results) _ s
            (stage-Ends call.run_id stored.calls results s)
            (λ staged s' g.
              let (grows, same_ops) = append_staged-Grows target staged v g in
              returned _ _ (store_after-Grows call.logical_op_id _ grows same_ops fresh (held _))))
      | inr e ↦ rw e (returned [] s (Grows-refl v))
    ]

pub record_tool_results-IsSafe :
    (run_id : Text) (step_no : ℕ) (target : RecordTarget) (results : List ToolResult) (op : Text)
    (previous : BatchReceipt) (s : MemoryTranscript)
    → IsValid s
    → IsSafe s (record_tool_results run_id step_no target results op previous s)
unfolding record_tool_results
record_tool_results-IsSafe run_id step_no target results op previous s v =
    Ends-with_op s _ _ _ (λ _ _ _ _ _. Grows-refl v)
      (λ _ fresh. Ends-lift s (stored_batch run_id step_no target previous) _ (λ stored _.
        write_results-IsSafe _ step_no target results stored s v fresh
          (λ rs. unfold committed in refl)))

status-Grows :
    (run_id : Text) (status : RunStatus) (s : MemoryTranscript)
    → IsValid s
    → Grows s (record s { run_status = put Text-discrete run_id status s.run_status })
status-Grows run_id status s v = record {
  valid = record {
    counted = v.counted;
    named = v.named;
    ordered = v.ordered;
    once = v.once;
    texts = v.texts;
    receipts = v.receipts;
  };
  extends = record {
    messages = λ i k. k;
    order = (Kept-Extends (Kept-refl s)).order;
    ops = λ op c e. e;
    text_ids = λ k i e. e;
    seq = (Kept-Extends (Kept-refl s)).seq;
    version = (Kept-Extends (Kept-refl s)).version;
  };
}

pub finalize_run-IsSafe :
    (run_id : Text) (status : RunStatus) (s : MemoryTranscript)
    → IsValid s
    → IsSafe s (finalize_run run_id status s)
unfolding finalize_run
finalize_run-IsSafe run_id status s v =
    Ends-with_op s _ _ _ (λ _ _ _ _ _. Grows-refl v)
      (λ _ fresh. returned tt _ (
        store_after-Grows _ _ (status-Grows run_id status s v) refl fresh
          (unfold committed in refl)))
