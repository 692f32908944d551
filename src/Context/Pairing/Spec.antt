-- ===== src/Context/Pairing/Spec.antt =====
-- What a model view has to be for a provider to accept it, stated without the pairing algorithm.
use coresmos.Prelude.{
  ℕ, ◌≤◌, ◌≡◌, true, false, Option, none, some, List, [], ◌∷◌, ◌++◌, All, count, Text,
  Text-discrete, truthy,
}
use mathlib.Core.List.{append_assoc}
use coresmos.Contracts.Messages.{Message, call_ids}
use coresmos.Context.Pairing.{is_tool, is_calling}

abbrev pub cons_id : Option Text → List Text → List Text
cons_id none ids = ids
cons_id (some t) ids = t ∷ ids

-- The call ids that tool messages answer.
abbrev pub result_ids : List Message → List Text
result_ids [] = []
result_ids (m ∷ ms) = cons_id m.tool_call_id (result_ids ms)

abbrev pub occurrences : Text → List Text → ℕ
occurrences = count Text-discrete

pub record IsResult (m : Message) : Type 0 where
  pub tool : is_tool m ≡ true
  pub named : truthy m.tool_call_id ≡ true

-- `results` answer the calls of `m`: tool messages with an id, each call answered exactly once.
pub record Answers (m : Message) (results : List Message) : Type 0 where
  pub calling : is_calling m ≡ true
  pub each : All IsResult results
  pub unique : (t : Text) → occurrences t (call_ids m) ≤ 1
  pub exact : (t : Text) → occurrences t (result_ids results) ≡ occurrences t (call_ids m)

-- Plain messages, and calls directly followed by their results.
pub data IsPaired : List Message → Type 0 where
  done : IsPaired []
  plain :
      (m : Message) {ms : List Message}
      → is_calling m ≡ false
      → is_tool m ≡ false
      → IsPaired ms
      → IsPaired (m ∷ ms)
  group :
      (m : Message) (results ms : List Message) {all : List Message}
      → Answers m results
      → IsPaired ms
      → all ≡ results ++ ms
      → IsPaired (m ∷ all)

pub IsPaired-append : {xs ys : List Message} → IsPaired xs → IsPaired ys → IsPaired (xs ++ ys)
IsPaired-append done q = q
IsPaired-append (plain m c t p) q = plain m c t (IsPaired-append p q)
IsPaired-append {ys} (group m results ms a p e) q =
    group m results (ms ++ ys) a (IsPaired-append p q) (simp (e, append_assoc))
