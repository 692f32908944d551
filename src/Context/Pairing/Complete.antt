-- ===== src/Context/Pairing/Complete.antt =====
-- Enough rounds, and what `pair_tool_messages` keeps.
use coresmos.Prelude.{
  ℕ, zero, suc, ◌+◌, ◌≤◌, ◌≡◌, refl, ap, true, false, Option, none, some, List, [], ◌∷◌, ◌++◌, All,
  length, length-append, count, is_subset_sound, set_eq, Text, Text-discrete, arith, Bool-cases,
  inl, inr, count_self, elem-count, truthy, is_subset_complete, length-to_set, length-eq_of_count,
  ◌≢◌, Option-cases,
}
use coresmos.Contracts.Messages.{Message, call_ids}
use coresmos.Context.Pairing.{
  is_tool, is_calling, skip_tools, collect, Collected, is_complete, has_repeats, pair_rounds,
  pair_tool_messages, accepts, add_seen,
}
use coresmos.Context.Pairing.Spec.{
  result_ids, occurrences, IsResult, Answers, IsPaired, done, plain, group,
}
use coresmos.Context.Pairing.Collecting.{collect-Collects}

pub length-skip_tools-le : (ms : List Message) → length (skip_tools ms) ≤ length ms
unfolding skip_tools
length-skip_tools-le [] = omega arith
length-skip_tools-le (m ∷ ms) = ground (arith, length-skip_tools-le ms)

length-rest-le :
    (needed seen : List Text) (ms : List Message) → length (collect needed seen ms).rest ≤ length ms
length-rest-le needed seen ms =
    let c = collect needed seen ms in
    omega (
      arith,
      ap (λ (l : List Message). length l) (collect-Collects needed seen ms).split,
      length-append c.results c.rest,
    )

-- Rounds that are not needed change nothing.
pair_rounds-stable :
    (n k : ℕ) (ms : List Message)
    → length ms ≤ n
    → length ms ≤ k
    → pair_rounds n ms ≡ pair_rounds k ms
unfolding pair_rounds
pair_rounds-stable zero zero ms h g = refl
pair_rounds-stable zero (suc k) [] h g = refl
pair_rounds-stable zero (suc k) (m ∷ ms) h g = absurd (omega arith)
pair_rounds-stable (suc n) zero [] h g = refl
pair_rounds-stable (suc n) zero (m ∷ ms) h g = absurd (omega arith)
pair_rounds-stable (suc n) (suc k) [] h g = refl
pair_rounds-stable (suc n) (suc k) (m ∷ ms) h g =
    let found = collect (call_ids m) [] ms in
    ground (
      arith,
      length-rest-le (call_ids m) [] ms,
      length-skip_tools-le ms,
      length-skip_tools-le found.rest,
      pair_rounds-stable n k ms,
      pair_rounds-stable n k found.rest,
      pair_rounds-stable n k (skip_tools ms),
      pair_rounds-stable n k (skip_tools found.rest),
    )

-- A plain message is kept where it stands.
pub pair-plain :
    (m : Message) (ms : List Message)
    → is_calling m ≡ false
    → is_tool m ≡ false
    → pair_tool_messages (m ∷ ms) ≡ m ∷ pair_tool_messages ms
unfolding pair_tool_messages pair_rounds
pair-plain m ms c t = rw (c, t)

result-accepted :
    (needed seen : List Text) (o : Option Text) (ids : List Text)
    → truthy o ≡ true
    → ((t : Text) → occurrences t needed ≤ 1)
    → ((t : Text) → occurrences t (add_seen o ids) + occurrences t seen ≡ occurrences t needed)
    → accepts needed seen o ≡ true
unfolding accepts
result-accepted needed seen none ids h u e = cc
result-accepted needed seen (some []) ids h u e = cc
result-accepted needed seen (some (c ∷ cs)) ids h u e =
    let t : Text = c ∷ cs in
    ground (
      arith,
      u t,
      e t,
      count_self Text-discrete t ids,
      elem-count Text-discrete t needed,
      elem-count Text-discrete t seen,
    )

-- The loop over a group's results, on results that answer what is needed and not yet seen.
record Exactly (needed : List Text) (rs ms : List Message) (c : Collected) : Type 0 where
  all : c.results ≡ rs
  left : c.rest ≡ ms
  full : set_eq Text-discrete c.seen needed ≡ true

full_of_exact :
    (needed seen : List Text)
    → ((t : Text) → occurrences t seen ≡ occurrences t needed)
    → set_eq Text-discrete seen needed ≡ true
unfolding set_eq
full_of_exact needed seen e = ground (
  arith,
  is_subset_complete Text-discrete seen needed (λ t h. omega (arith, e t)),
  is_subset_complete Text-discrete needed seen (λ t h. omega (arith, e t)),
)

not_full :
    (needed seen : List Text) (o : Option Text) (ids : List Text)
    → truthy o ≡ true
    → ((t : Text) → occurrences t needed ≤ 1)
    → ((t : Text) → occurrences t (add_seen o ids) + occurrences t seen ≡ occurrences t needed)
    → set_eq Text-discrete seen needed ≡ false
unfolding set_eq
not_full needed seen none ids h u e = cc
not_full needed seen (some t) ids h u e = elim (Bool-cases (set_eq Text-discrete seen needed)) [
  | inr f ↦ f
  | inl f ↦ absurd (
      omega (
        arith,
        u t,
        e t,
        count_self Text-discrete t ids,
        is_subset_sound Text-discrete needed seen (ground arith) t
            (omega (arith, e t, count_self Text-discrete t ids)),
      ))
]

moved :
    (needed seen : List Text) (o : Option Text) (ids : List Text)
    → ((t : Text) → occurrences t (add_seen o ids) + occurrences t seen ≡ occurrences t needed)
    → (t : Text) → occurrences t ids + occurrences t (add_seen o seen) ≡ occurrences t needed
unfolding count
moved needed seen none ids e t = e t
moved needed seen (some s) ids e t = ground (arith, e t)

collect_exact :
    (needed seen : List Text) (r : Message) (rs ms : List Message)
    → ((t : Text) → occurrences t needed ≤ 1)
    → All IsResult (r ∷ rs)
    → ((t : Text) → occurrences t (result_ids (r ∷ rs)) + occurrences t seen ≡ occurrences t needed)
    → Exactly needed (r ∷ rs) ms (collect needed seen (r ∷ (rs ++ ms)))
unfolding collect count
collect_exact needed seen r [] ms u each e =
    let e' = moved needed seen r.tool_call_id [] e in
    rw
      (
        each.0.tool,
        result-accepted needed seen r.tool_call_id [] each.0.named u e,
        full_of_exact needed (add_seen r.tool_call_id seen) (λ t. omega (arith, e' t)),
      )
      (record {
        all = refl;
        left = refl;
        full = full_of_exact needed (add_seen r.tool_call_id seen) (λ t. omega (arith, e' t));
      })
collect_exact needed seen r (r' ∷ rs) ms u each e =
    let e' = moved needed seen r.tool_call_id (result_ids (r' ∷ rs)) e in
    let k = collect_exact needed (add_seen r.tool_call_id seen) r' rs ms u each.1 e' in
    rw
      (
        each.0.tool,
        result-accepted needed seen r.tool_call_id (result_ids (r' ∷ rs)) each.0.named u e,
        not_full needed (add_seen r.tool_call_id seen) r'.tool_call_id (result_ids rs)
            each.1.0.named u e',
      )
      (record { all = ap (◌∷◌ r) k.all; left = k.left; full = k.full })

length-result_ids : (rs : List Message) → All IsResult rs → length (result_ids rs) ≡ length rs
length-result_ids [] h = refl
length-result_ids (r ∷ rs) h =
    ground (arith, h.0.named, Option-cases r.tool_call_id, length-result_ids rs h.1)

calling-ids : (m : Message) → is_calling m ≡ true → call_ids m ≢ []
calling-ids m h = ground arith

pub Answers-nonempty : (m : Message) → Answers m [] → ⊥
unfolding count
Answers-nonempty m a = first_id (call_ids m) (calling-ids m a.calling) a.exact
  where
    first_id : (ids : List Text) → ids ≢ [] → ((t : Text) → 0 ≡ occurrences t ids) → ⊥
    first_id [] h e = h refl
    first_id (t ∷ ids) h e = omega (arith, e t, count_self Text-discrete t ids)

once : (m : Message) → ((t : Text) → occurrences t (call_ids m) ≤ 1) → has_repeats m ≡ false
unfolding has_repeats
once m u = ground (arith, length-to_set Text-discrete (call_ids m) u)

-- A complete group is kept whole, where it stands.
pub pair-group :
    (m : Message) (rs ms : List Message)
    → Answers m rs
    → pair_tool_messages (m ∷ (rs ++ ms)) ≡ m ∷ (rs ++ pair_tool_messages ms)
unfolding pair_tool_messages pair_rounds is_complete count
pair-group m [] ms a = absurd (Answers-nonempty m a)
pair-group m (r ∷ rs) ms a =
    let needed = call_ids m in
    let k = collect_exact needed [] r rs ms a.unique a.each (λ t. omega (arith, a.exact t)) in
    let same = length-eq_of_count Text-discrete (result_ids (r ∷ rs)) needed a.exact in
    ground (
      arith,
      a.calling,
      once m a.unique,
      k.all,
      k.left,
      k.full,
      same,
      length-result_ids (r ∷ rs) a.each,
      length-append rs ms,
      pair_rounds-stable (suc (length (rs ++ ms))) (length ms) ms,
    )

-- On a view that is already paired nothing is dropped.
pub pair_tool_messages_self : {ms : List Message} → IsPaired ms → pair_tool_messages ms ≡ ms
pair_tool_messages_self done = unfold pair_tool_messages pair_rounds in refl
pair_tool_messages_self (plain m c t p) =
    rw (pair-plain, c, t) (ap (◌∷◌ m) (pair_tool_messages_self p))
pair_tool_messages_self (group m rs ms a p e) =
    rw (e, pair-group, a) (ap (λ l. m ∷ (rs ++ l)) (pair_tool_messages_self p))
