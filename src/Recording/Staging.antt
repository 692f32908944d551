-- ===== src/Recording/Staging.antt =====
-- The messages of a tool batch's results: numbered one by one, then appended.
use coresmos.Prelude.{
  ℕ, ◌+◌, ◌≤◌, ◌<◌, ◌≡◌, refl, ◌∙◌, false, some, List, [], ◌∷◌, Text, codes, arith, inl, inr,
  last_number, Bool-cases,
}
use coresmos.Errors.{ok}
use coresmos.Contracts.Messages.{ToolResult, Message}
use coresmos.Contracts.Receipts.{RecordTarget, CallRecord}
use coresmos.Recording.Store.{MemoryTranscript, find_message, append, next_id}
use coresmos.Recording.Operations.{is_known}
use coresmos.Recording.Batches.{stage, append_all, check_result, tool_message}
use coresmos.Recording.Facts.{
  Known, IsValid, Kept, Kept-refl, Kept-IsValid, Kept-Extends, Ends, returned, Ends-then_do,
}
use coresmos.Recording.Writing.{
  Grows, Grows-refl, Grows-trans, bump, bump-Kept, last_number-id_text, append-Grows, old_or_new,
}
use coresmos.Recording.Steps.{Kept-trans, Ends-map, Ends-lift}
use coresmos.Recording.Texts.{fresh_id}

-- The ids count up from past `n`, to `limit` at most, and each message carries its id.
pub Numbered : ℕ → ℕ → List (Text × Message) → Type 0
Numbered n limit [] = n ≤ limit
Numbered n limit ((i, m) ∷ rest) =
    (n < last_number 0 i) × (m.message_id ≡ some i) × Numbered (last_number 0 i) limit rest

-- Staging only moves the counter.
pub record Stages (s : MemoryTranscript) (staged : List (Text × Message)) (s' : MemoryTranscript)
    : Type 0 where
  pub kept : Kept s s'
  pub numbered : Numbered s.seq s'.seq staged
  pub same_fails : s'.fail_ops ≡ s.fail_ops

pub stage-Ends :
    (run_id : Text) (records : List CallRecord) (results : List ToolResult) (s : MemoryTranscript)
    → Ends (Kept s) (Stages s) (stage run_id records results s)
unfolding stage next_id Numbered
stage-Ends run_id records [] s =
    returned [] s (record { kept = Kept-refl s; numbered = omega arith; same_fails = refl })
stage-Ends run_id records (result ∷ results) s =
    let i = fresh_id run_id s in
    Ends-lift s (check_result records result) _ (λ _ _.
      Ends-then_do (stage run_id records results)
        (λ staged s2. (ok ((i, tool_message i result) ∷ staged), s2)) (bump s)
        (Ends-map (λ s2 k. Kept-trans (bump-Kept s) k) (λ staged s2 g. g)
          (stage-Ends run_id records results (bump s)))
        (λ staged s2 g. returned ((i, tool_message i result) ∷ staged) s2 (record {
          kept = Kept-trans (bump-Kept s) g.kept;
          numbered = (
            omega (arith, last_number-id_text (codes "msg") run_id (s.seq + 1)),
            refl,
            rw (last_number-id_text (codes "msg") run_id (s.seq + 1)) g.numbered,
          );
          same_fails = g.same_fails;
        })))

Numbered-le : (n limit : ℕ) (staged : List (Text × Message)) → Numbered n limit staged → n ≤ limit
unfolding Numbered
Numbered-le n limit [] h = h
Numbered-le n limit ((i, m) ∷ rest) (lt, own, h) =
    omega (arith, Numbered-le (last_number 0 i) limit rest h)

-- Numbered messages are new, one after the other, in a transcript whose ids do not pass `n`.
append_all-Grows :
    (target : RecordTarget) (staged : List (Text × Message)) (s : MemoryTranscript) (n : ℕ)
    → IsValid s
    → ((j : Text) → Known s j → last_number 0 j ≤ n)
    → Numbered n s.seq staged
    → Grows s (append_all target staged s) × ((append_all target staged s).ops ≡ s.ops)
unfolding append_all append Numbered
append_all-Grows target [] s n v below h = (Grows-refl v, refl)
append_all-Grows target ((i, m) ∷ rest) s n v below (lt, own, h) =
    let small = Numbered-le (last_number 0 i) s.seq rest h in
    let g = append-Grows s target i m v small new own in
    let (more, same_ops) =
      append_all-Grows target rest (append target i m s) (last_number 0 i) g.valid below_next h in
    (Grows-trans g more, same_ops)
  where
    new : is_known (find_message s i) ≡ false
    new = elim (Bool-cases (is_known (find_message s i))) [
      | inl k ↦ absurd (omega (arith, below i k))
      | inr e ↦ e
    ]

    below_next : (j : Text) → Known (append target i m s) j → last_number 0 j ≤ last_number 0 i
    below_next j k = elim (old_or_new s target i m j k) [
      | inl e ↦ rw (← e) (omega arith)
      | inr old ↦ omega (arith, below j old)
    ]

-- What was staged can be appended.
pub append_staged-Grows :
    {s s' : MemoryTranscript} (target : RecordTarget) (staged : List (Text × Message))
    → IsValid s
    → Stages s staged s'
    → Grows s (append_all target staged s') × ((append_all target staged s').ops ≡ s.ops)
append_staged-Grows {s} {s'} target staged v g =
    let (more, same_ops) =
      append_all-Grows target staged s' s.seq (Kept-IsValid g.kept v)
        (λ j k. v.counted j (rw g.kept.messages at k)) g.numbered in
    (
      Grows-trans (record { valid = Kept-IsValid g.kept v; extends = Kept-Extends g.kept }) more,
      same_ops ∙ g.kept.ops,
    )

pub fail_ops-append_all :
    (target : RecordTarget) (staged : List (Text × Message)) (s : MemoryTranscript)
    → (append_all target staged s).fail_ops ≡ s.fail_ops
unfolding append_all append
fail_ops-append_all target [] s = refl
fail_ops-append_all target ((i, m) ∷ rest) s = fail_ops-append_all target rest (append target i m s)
