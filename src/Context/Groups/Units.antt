-- ===== src/Context/Groups/Units.antt =====
-- Grouping a paired view: every unit is a plain message or a call with all of its results.
use mathlib.Core.List.{flatten, append-nil}
use coresmos.Prelude.{
  ℕ, zero, suc, ◌≤◌, ◌≡◌, refl, sym, ap, true, false, Option, none, some, List, [], ◌∷◌, ◌++◌, All,
  length, length-append, drop, take-length-append, drop-length-append, elem-count, count_self,
  count-le-cons, truthy, Text, Text-discrete, arith,
}
use coresmos.Contracts.Messages.{Message, call_ids}
use coresmos.Context.Pairing.{is_tool, is_calling}
use coresmos.Context.Pairing.Spec.{
  cons_id, result_ids, occurrences, IsResult, Answers, IsPaired, done, plain, group,
  IsPaired-append,
}
use coresmos.Context.Groups.{answers_one, run_length, group_rounds, group_messages}

-- A unit of the model view.
pub data IsUnit : List Message → Type 0 where
  one : (m : Message) → is_calling m ≡ false → is_tool m ≡ false → IsUnit (m ∷ [])
  calls : (m : Message) (results : List Message) → Answers m results → IsUnit (m ∷ results)

abbrev pub NoToolHead : List Message → Type 0
NoToolHead [] = Unit
NoToolHead (m ∷ ms) = is_tool m ≡ false

calling-not_tool : (m : Message) → is_calling m ≡ true → is_tool m ≡ false
calling-not_tool m h = ground arith

pub IsPaired-NoToolHead : {ms : List Message} → IsPaired ms → NoToolHead ms
IsPaired-NoToolHead done = tt
IsPaired-NoToolHead (plain m c t p) = t
IsPaired-NoToolHead (group m rs ms a p e) = calling-not_tool m a.calling

stops : (ids : List Text) (ms : List Message) → NoToolHead ms → run_length ids ms ≡ 0
unfolding run_length
stops ids [] h = refl
stops ids (m ∷ ms) h = rw h

within :
    (ids : List Text) (o : Option Text) (more : List Text)
    → truthy o ≡ true
    → ((t : Text) → occurrences t (cons_id o more) ≤ occurrences t ids)
    → (answers_one ids o ≡ true) × ((t : Text) → occurrences t more ≤ occurrences t ids)
unfolding answers_one
within ids none more h f = cc
within ids (some t) more h f = (
  ground (arith, elem-count Text-discrete t ids, f t, count_self Text-discrete t more),
  λ u. omega (arith, f u, count-le-cons Text-discrete u t more),
)

pub run_length-results :
    (ids : List Text) (rs ms : List Message)
    → All IsResult rs
    → ((t : Text) → occurrences t (result_ids rs) ≤ occurrences t ids)
    → NoToolHead ms
    → run_length ids (rs ++ ms) ≡ length rs
unfolding run_length
run_length-results ids [] ms each f h = stops ids ms h
run_length-results ids (r ∷ rs) ms each f h =
    let (here, later) = within ids r.tool_call_id (result_ids rs) each.0.named f in
    rw (each.0.tool, here) (ap suc (run_length-results ids rs ms each.1 later h))

pub run_length-group :
    (m : Message) (rs ms : List Message)
    → Answers m rs
    → IsPaired ms
    → run_length (call_ids m) (rs ++ ms) ≡ length rs
run_length-group m rs ms a p =
    run_length-results (call_ids m) rs ms a.each (λ t. omega (arith, a.exact t))
      (IsPaired-NoToolHead p)

group_rounds-IsUnit :
    (n : ℕ) {ms : List Message} → IsPaired ms → length ms ≤ n → All IsUnit (group_rounds n ms)
unfolding group_rounds
group_rounds-IsUnit zero done h = tt
group_rounds-IsUnit zero (plain m c t p) h = tt
group_rounds-IsUnit zero (group m rs ms a p e) h = tt
group_rounds-IsUnit (suc n) done h = tt
group_rounds-IsUnit (suc n) (plain m c t p) h =
    rw c (one m c t, group_rounds-IsUnit n p (omega arith))
group_rounds-IsUnit (suc n) (group m rs ms {all} a p e) h =
    rw (e, a.calling, run_length-group m rs ms a p, take-length-append, drop-length-append)
      (
        calls m rs a,
        group_rounds-IsUnit n p
            (omega (arith, ap (λ (l : List Message). length l) e, length-append rs ms)),
      )

-- On a paired view each unit is one plain message or one call with all of its results.
pub group_messages-IsUnit : {ms : List Message} → IsPaired ms → All IsUnit (group_messages ms)
unfolding group_messages
group_messages-IsUnit {ms} p = group_rounds-IsUnit (length ms) p (omega arith)

unit-IsPaired : {u : List Message} → IsUnit u → IsPaired u
unit-IsPaired (one m c t) = plain m c t done
unit-IsPaired (calls m rs a) = group m rs [] a done (sym (append-nil rs))

pub IsUnit-flatten : (us : List (List Message)) → All IsUnit us → IsPaired (flatten us)
unfolding flatten
IsUnit-flatten [] h = done
IsUnit-flatten (u ∷ us) h = IsPaired-append (unit-IsPaired h.0) (IsUnit-flatten us h.1)

All-drop : (n : ℕ) (us : List (List Message)) → All IsUnit us → All IsUnit (drop n us)
All-drop zero us h = h
All-drop (suc n) [] h = tt
All-drop (suc n) (u ∷ us) h = All-drop n us h.1

-- Whatever number of oldest units goes, what is left is a paired view: no unit splits a group.
pub flatten-drop-IsPaired :
    {ms : List Message} (n : ℕ) → IsPaired ms → IsPaired (flatten (drop n (group_messages ms)))
flatten-drop-IsPaired {ms} n p =
    IsUnit-flatten (drop n (group_messages ms))
      (All-drop n (group_messages ms) (group_messages-IsUnit p))
