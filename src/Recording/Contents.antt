-- ===== src/Recording/Contents.antt =====
-- What a text delta does to the messages.
use coresmos.Prelude.{
  ℕ, ◌≡◌, ◌≢◌, refl, ap, ◌∙◌, sym, true, false, Option, none, some, [], ◌++◌, Text, Text-discrete,
  get, inl, inr, Option-cases, if_pos, if_neg,
}
use mathlib.Core.Bool.{false≢true}
use coresmos.Contracts.Messages.{Message}
use coresmos.Contracts.Receipts.{RecordTarget, MessageReceipt}
use coresmos.Recording.Store.{
  MemoryTranscript, TextKey, TextKey-discrete, find_message, find_op, store_op, append,
}
use coresmos.Recording.Operations.{
  is_known, text_of, record_text_delta, write_text, upsert, assistant, known_message, message_again,
}
use coresmos.Recording.Facts.{IsValid, Kept, Ends, returned, Ends-then_do}
use coresmos.Recording.Writing.{find-append, bump}
use coresmos.Recording.Steps.{Ends-lift, Ends-with_op}
use coresmos.Recording.Texts.{fresh_id, fresh-new, upsert_new, upsert_old, changed, find-changed}

abbrev text_in : Option Message → Text
text_in none = []
text_in (some m) = text_of m.content

-- The text of the message with an id, which is empty when there is none.
abbrev pub text_at : MemoryTranscript → Text → Text
text_at s i = text_in (find_message s i)

-- One message gained a text at its end, and no other message changed.
pub record Appends (s : MemoryTranscript) (text i : Text) (s' : MemoryTranscript) : Type 0 where
  pub gained : text_at s' i ≡ text_at s i ++ text
  pub others : (j : Text) → i ≢ j → find_message s' j ≡ find_message s j

no_text : (s : MemoryTranscript) (i : Text) → is_known (find_message s i) ≡ false → text_at s i ≡ []
no_text s i h = elim (Option-cases (find_message s i)) [
  | inl e ↦ ap text_in e
  | inr (m, e) ↦ absurd (false≢true (sym (rw e at h)))
]

module _ (s : MemoryTranscript) (text : Text) where
  abbrev more : Message → Message
  more m = record m { content = some (text_of m.content ++ text) }

  new-Appends :
      (run_id : Text) (target : RecordTarget) (m : Message)
      → IsValid s
      → m.content ≡ some text
      → Appends s text (fresh_id run_id s) (append target (fresh_id run_id s) m (bump s))
  new-Appends run_id target m v own =
      let i = fresh_id run_id s in
      record {
        gained =
            ap text_in (
              find-append (bump s) target i m i
              ∙ if_pos (Text-discrete i i) refl (some m) (find_message s i))
            ∙ (ap text_of own ∙ ap (λ t. t ++ text) (sym (no_text s i (fresh-new run_id v))));
        others = λ j n.
            find-append (bump s) target i m j
            ∙ if_neg (Text-discrete i j) n (some m) (find_message s j);
      }

  changed-Appends :
      (i : Text) (current : Message)
      → find_message s i ≡ some current
      → Appends s text i (changed s i (more current))
  changed-Appends i current e = record {
    gained =
        ap text_in (
          find-changed s i (more current) i
          ∙ if_pos (Text-discrete i i) refl (some (more current)) (find_message s i))
        ∙ ap (λ m. text_in m ++ text) (sym e);
    others = λ j n.
        find-changed s i (more current) j
        ∙ if_neg (Text-discrete i j) n (some (more current)) (find_message s j);
  }

  upsert-Appends :
      (key : TextKey) (target : RecordTarget)
      → IsValid s
      → Ends
          (Kept s)
          (λ w s'. Appends s text w.0 s')
          (upsert key target (assistant (some text) none []) more s)
  upsert-Appends key target v = elim (Option-cases (get TextKey-discrete key s.text_ids)) [
    | inl e ↦
        let i = fresh_id key.run_id s in
        let g =
          new-Appends key.run_id target
            (record (assistant (some text) none []) { message_id = some i }) v refl in
        rw (upsert_new key target (assistant (some text) none []) more s e)
          (returned (i, true) _ (record { gained = g.gained; others = g.others }))
    | inr (i, e) ↦ elim (Option-cases (find_message s i)) [
      | inl f ↦ absurd (false≢true (rw f at (v.texts key i e)))
      | inr (current, f) ↦
          rw (upsert_old key target (assistant (some text) none []) more s i current e f)
            (returned (i, false) _ (changed-Appends i current f))
    ]
  ]

-- A text delta under a new operation id, on a valid transcript, either raises with all committed
-- facts as they were, or returns the receipt of a message that has gained exactly the text, at its
-- end, while every other message is as it was.
pub record_text_delta-Appends :
    (run_id : Text) (step_no : ℕ) (target : RecordTarget) (text op : Text) (attempt : ℕ)
    (previous : Option MessageReceipt) (s : MemoryTranscript)
    → IsValid s
    → find_op s op ≡ none
    → Ends
        (Kept s)
        (λ r s'. Appends s text r.message_id s')
        (record_text_delta run_id step_no target text op attempt previous s)
unfolding record_text_delta write_text store_op
record_text_delta-Appends run_id step_no target text op attempt previous s v new =
    Ends-with_op s _ message_again _ (λ clear c found b e. absurd (cc (rw new at found)))
      (λ clear fresh. Ends-lift s (known_message previous) _ (λ _ _.
        Ends-then_do (upsert _ target (assistant (some text) none []) _) _ s
          (upsert-Appends s text _ target v)
          (λ w s' g. returned _ _ (record { gained = g.gained; others = g.others }))))
