-- ===== src/Context/Pairing/Sound.antt =====
-- One round of `pair_tool_messages` by its outcome, and what follows for the whole view.
use mathlib.Core.List.Sublist
use mathlib.Core.List.{Sublist, nil-sublist, sublist-append_right}
use coresmos.Prelude.{
  ℕ, zero, suc, ◌≤◌, ◌≡◌, refl, true, false, List, [], ◌∷◌, ◌++◌, All, length, count, count_le_one,
  is_subset_sound, set_eq, Text, Text-discrete, arith, Bool-cases, inl, inr,
}
use coresmos.Contracts.Messages.{Message, call_ids}
use coresmos.Context.Pairing.{
  is_tool, is_calling, skip_tools, collect, Collected, is_complete, has_repeats, pair_rounds,
  pair_tool_messages,
}
use coresmos.Context.Pairing.Spec.{occurrences, IsResult, Answers, IsPaired, done, plain, group}
use coresmos.Context.Pairing.Collecting.{Collects, collect-Collects}

unique_ids : (m : Message) → has_repeats m ≡ false → (t : Text) → occurrences t (call_ids m) ≤ 1
unfolding has_repeats
unique_ids m h = count_le_one Text-discrete (call_ids m) (ground arith)

complete-Answers :
    (m : Message) (ms : List Message) (c : Collected)
    → is_calling m ≡ true
    → has_repeats m ≡ false
    → is_complete m c ≡ true
    → Collects [] ms c
    → Answers m c.results
unfolding is_complete set_eq count
complete-Answers m ms c calling once full k = record {
  calling = calling;
  each = k.each;
  unique = unique_ids m once;
  exact = λ t. ground (
    arith,
    k.ids t,
    k.unique (λ u. omega arith) t,
    unique_ids m once t,
    is_subset_sound Text-discrete c.seen (call_ids m) (ground arith) t,
    is_subset_sound Text-discrete (call_ids m) c.seen (ground arith) t,
  );
}

-- What one round does with the message at the cursor.
pub data Round (n : ℕ) (m : Message) (ms : List Message) (out : List Message) : Type 0 where
  kept : is_calling m ≡ false → is_tool m ≡ false → out ≡ m ∷ pair_rounds n ms → Round n m ms out
  orphan : is_calling m ≡ false → is_tool m ≡ true → out ≡ pair_rounds n ms → Round n m ms out
  complete :
      (results rest : List Message)
      → Answers m results
      → ms ≡ results ++ rest
      → out ≡ m ∷ (results ++ pair_rounds n rest)
      → Round n m ms out
  broken :
      (results rest : List Message)
      → is_calling m ≡ true
      → All IsResult results
      → ms ≡ results ++ rest
      → out ≡ pair_rounds n (skip_tools rest)
      → Round n m ms out

pub pair_rounds-Round :
    (n : ℕ) (m : Message) (ms : List Message) → Round n m ms (pair_rounds (suc n) (m ∷ ms))
unfolding pair_rounds
pair_rounds-Round n m ms = elim (Bool-cases (is_calling m)) [
  | inr c ↦ elim (Bool-cases (is_tool m)) [
    | inl t ↦ orphan c t (rw (c, t))
    | inr t ↦ kept c t (rw (c, t))
  ]
  | inl c ↦ elim (Bool-cases (has_repeats m)) [
    | inl r ↦ broken [] ms c tt refl (rw (c, r))
    | inr r ↦
        let found = collect (call_ids m) [] ms in
        let k = collect-Collects (call_ids m) [] ms in
        elim (Bool-cases (is_complete m found)) [
          | inl f ↦
              complete found.results found.rest (complete-Answers m ms found c r f k) k.split
                (rw (c, r, f))
          | inr f ↦ broken found.results found.rest c k.each k.split (rw (c, r, f))
        ]
  ]
]

Round-IsPaired :
    {n : ℕ} {m : Message} {ms out : List Message}
    → Round n m ms out
    → ((l : List Message) → IsPaired (pair_rounds n l))
    → IsPaired out
Round-IsPaired (kept c t e) ih = rw e (plain _ c t (ih _))
Round-IsPaired (orphan c t e) ih = rw e (ih _)
Round-IsPaired (complete results rest a s e) ih = rw e (group _ results _ a (ih rest) refl)
Round-IsPaired (broken results rest c a s e) ih = rw e (ih _)

pair_rounds-IsPaired : (n : ℕ) (ms : List Message) → IsPaired (pair_rounds n ms)
pair_rounds-IsPaired zero ms = unfold pair_rounds in done
pair_rounds-IsPaired (suc n) [] = unfold pair_rounds in done
pair_rounds-IsPaired (suc n) (m ∷ ms) =
    Round-IsPaired (pair_rounds-Round n m ms) (pair_rounds-IsPaired n)

-- The view that `pair_tool_messages` returns consists of plain messages, and of calls with pairwise
-- distinct ids, each directly followed by tool messages that answer every call exactly once.
pub pair_tool_messages-IsPaired : (ms : List Message) → IsPaired (pair_tool_messages ms)
unfolding pair_tool_messages
pair_tool_messages-IsPaired ms = pair_rounds-IsPaired (length ms) ms

pub skip_tools-sublist : (ms : List Message) → Sublist (skip_tools ms) ms
unfolding skip_tools
skip_tools-sublist [] = Sublist.refl []
skip_tools-sublist (m ∷ ms) = elim (Bool-cases (is_tool m)) [
  | inl t ↦ rw t (Sublist.cons m (skip_tools-sublist ms))
  | inr t ↦ rw t (Sublist.refl (m ∷ ms))
]

Round-sublist :
    {n : ℕ} {m : Message} {ms out : List Message}
    → Round n m ms out
    → ((l : List Message) → Sublist (pair_rounds n l) l)
    → Sublist out (m ∷ ms)
Round-sublist (kept c t e) ih = rw e (Sublist.cons-cons _ (ih _))
Round-sublist (orphan c t e) ih = rw e (Sublist.cons _ (ih _))
Round-sublist (complete results rest a s e) ih =
    rw (e, s) (Sublist.cons-cons _ (Sublist.append (Sublist.refl results) (ih rest)))
Round-sublist (broken results rest c a s e) ih =
    rw (e, s)
      (Sublist.cons _ (
        Sublist.trans (ih _)
          (Sublist.trans (skip_tools-sublist rest) (sublist-append_right results rest))))

pair_rounds-sublist : (n : ℕ) (ms : List Message) → Sublist (pair_rounds n ms) ms
pair_rounds-sublist zero ms = unfold pair_rounds in nil-sublist ms
pair_rounds-sublist (suc n) [] = unfold pair_rounds in Sublist.refl []
pair_rounds-sublist (suc n) (m ∷ ms) =
    Round-sublist (pair_rounds-Round n m ms) (pair_rounds-sublist n)

-- Nothing is invented or reordered: the view is a sublist of the messages.
pub pair_tool_messages-sublist : (ms : List Message) → Sublist (pair_tool_messages ms) ms
unfolding pair_tool_messages
pair_tool_messages-sublist ms = pair_rounds-sublist (length ms) ms
