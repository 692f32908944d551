-- ===== src/Context/Pairing/Kept.antt =====
-- Plain messages survive `pair_tool_messages`, in order.
use coresmos.Prelude.{
  ℕ, zero, suc, ◌≤◌, ◌≡◌, refl, ap, ◌∙◌, ◌||◌, List, [], ◌∷◌, ◌++◌, All, length, length-append,
  arith, if◌then◌else◌,
}
use coresmos.Contracts.Messages.{Message}
use coresmos.Context.Pairing.{is_tool, is_calling, skip_tools, pair_rounds, pair_tool_messages}
use coresmos.Context.Pairing.Spec.{IsResult}
use coresmos.Context.Pairing.Sound.{Round, kept, orphan, complete, broken, pair_rounds-Round}
use coresmos.Context.Pairing.Complete.{length-skip_tools-le}

-- The messages that are neither tool results nor calls: the turns of the system, user and assistant.
unfoldable pub plain_of : List Message → List Message
plain_of [] = []
plain_of (m ∷ ms) = let rest = plain_of ms in if is_calling m || is_tool m then rest else m ∷ rest

plain_of-append : (xs ys : List Message) → plain_of (xs ++ ys) ≡ plain_of xs ++ plain_of ys
unfolding plain_of
plain_of-append [] ys = refl
plain_of-append (x ∷ xs) ys = ground (arith, plain_of-append xs ys)

plain_of-results : (rs : List Message) → All IsResult rs → plain_of rs ≡ []
unfolding plain_of
plain_of-results [] h = refl
plain_of-results (r ∷ rs) h = ground (arith, h.0.tool, plain_of-results rs h.1)

plain_of-skip_tools : (ms : List Message) → plain_of (skip_tools ms) ≡ plain_of ms
unfolding plain_of skip_tools
plain_of-skip_tools [] = refl
plain_of-skip_tools (m ∷ ms) = ground (arith, plain_of-skip_tools ms)

split_rest :
    (rs rest : List Message) {ms : List Message}
    → All IsResult rs
    → ms ≡ rs ++ rest
    → (plain_of ms ≡ plain_of rest) × (length rest ≤ length ms)
split_rest rs rest h e =
    (rw (e, plain_of-append, plain_of-results rs h), rw e (omega (arith, length-append rs rest)))

plain_of-Round :
    {n : ℕ} {m : Message} {ms out : List Message}
    → Round n m ms out
    → ((l : List Message) → length l ≤ n → plain_of (pair_rounds n l) ≡ plain_of l)
    → length ms ≤ n
    → plain_of out ≡ plain_of (m ∷ ms)
unfolding plain_of
plain_of-Round {m} {ms} (kept c t e) ih h = rw (e, c, t) (ap (◌∷◌ m) (ih ms h))
plain_of-Round {ms} (orphan c t e) ih h = rw (e, c, t) (ih ms h)
plain_of-Round (complete rs rest a s e) ih h =
    let (same, shorter) = split_rest rs rest a.each s in
    rw (e, a.calling, same, plain_of-append, plain_of-results rs a.each) (ih rest (omega arith))
plain_of-Round (broken rs rest c a s e) ih h =
    let (same, shorter) = split_rest rs rest a s in
    rw (e, c, same)
      (ih (skip_tools rest) (omega (arith, length-skip_tools-le rest)) ∙ plain_of-skip_tools rest)

plain_of-pair_rounds :
    (n : ℕ) (ms : List Message) → length ms ≤ n → plain_of (pair_rounds n ms) ≡ plain_of ms
plain_of-pair_rounds zero [] h = unfold pair_rounds in refl
plain_of-pair_rounds zero (m ∷ ms) h = absurd (omega arith)
plain_of-pair_rounds (suc n) [] h = unfold pair_rounds in refl
plain_of-pair_rounds (suc n) (m ∷ ms) h =
    plain_of-Round (pair_rounds-Round n m ms) (plain_of-pair_rounds n) (omega arith)

-- The view keeps every message that is neither a tool result nor an assistant turn with calls, in
-- the order of the history.
pub plain_of-pair_tool_messages :
    (ms : List Message) → plain_of (pair_tool_messages ms) ≡ plain_of ms
unfolding pair_tool_messages
plain_of-pair_tool_messages ms = plain_of-pair_rounds (length ms) ms (omega arith)
