-- ===== src/Context/Trim/Results.antt =====
-- What the trimmer returns, on every outcome.
use mathlib.Core.List.Sublist
use mathlib.Core.List.{Sublist}
use coresmos.Prelude.{
  ℕ, zero, suc, ◌≤◌, ◌<◌, ◌≡◌, refl, ◌∙◌, Bool, true, false, leb, List, [], ◌∷◌, All, length, arith,
  Bool-cases, inl, inr, Text,
}
use coresmos.Errors.{Error, Result, ok, raise, context_budget_error}
use coresmos.Json.{Fields}
use coresmos.Contracts.Messages.{Message}
use coresmos.Context.Pairing.{pair_tool_messages}
use coresmos.Context.Pairing.Spec.{IsPaired}
use coresmos.Context.Pairing.Sound.{pair_tool_messages-IsPaired}
use coresmos.Context.Budget.{TokenEstimator, estimate_messages}
use coresmos.Context.Trim.{oldest_span, delete_span, trim_rounds, trim}
use coresmos.Context.Trim.Spans.{NotCalling, IsSystem, all_but_last}
use coresmos.Context.Trim.Rounds.{
  systems, KeepsLast, Shrinks, SpanCase, stuck, found, oldest_span-SpanCase, length-delete_span,
  estimate-delete_span,
}

-- A part of a view that can be sent: groups are whole, no system message is missing, and the last
-- message is still there if it is plain.
pub record IsPart (out ms : List Message) : Type 0 where
  pub paired : IsPaired out
  pub sub : Sublist out ms
  pub systems_kept : systems out ≡ systems ms
  pub last_kept : KeepsLast out ms

IsPart-refl : {ms : List Message} → IsPaired ms → IsPart ms ms
IsPart-refl {ms} p = record {
  paired = p;
  sub = Sublist.refl ms;
  systems_kept = refl;
  last_kept = record { at = λ m e c t. e };
}

IsPart-trans : {a b c : List Message} → IsPart a b → IsPart b c → IsPart a c
IsPart-trans p q = record {
  paired = p.paired;
  sub = Sublist.trans p.sub q.sub;
  systems_kept = p.systems_kept ∙ q.systems_kept;
  last_kept = record { at = λ m e c t. p.last_kept.at m (q.last_kept.at m e c t) c t };
}

module _ (str_dict : Fields → Text) (estimator : TokenEstimator)
    (budget_tokens reserved_tokens : ℕ) where
  abbrev estimate : List Message → Result ℕ
  estimate = estimate_messages str_dict estimator reserved_tokens

  -- The outcomes on a paired view that can be measured.
  pub data Outcome (ms : List Message) (compressed : Bool) (r : Result (List Message × Bool))
      : Type 0 where
    unchanged :
        (n : ℕ)
        → estimate ms ≡ ok n
        → n ≤ budget_tokens
        → r ≡ ok (ms, compressed)
        → Outcome ms compressed r
    shortened :
        (n n' : ℕ) (out : List Message)
        → estimate ms ≡ ok n
        → budget_tokens < n
        → estimate out ≡ ok n'
        → n' ≤ budget_tokens
        → IsPart out ms
        → r ≡ ok (out, true)
        → Outcome ms compressed r
    too_large :
        (n : ℕ) (core : List Message)
        → estimate core ≡ ok n
        → budget_tokens < n
        → IsPart core ms
        → All NotCalling core
        → All IsSystem (all_but_last core)
        → r ≡ raise context_budget_error
        → Outcome ms compressed r

  Outcome-step :
      {ms mid : List Message} {compressed : Bool} {r : Result (List Message × Bool)} (n : ℕ)
      → estimate ms ≡ ok n
      → budget_tokens < n
      → IsPart mid ms
      → Outcome mid true r
      → Outcome ms compressed r
  Outcome-step n e over part (unchanged n' e' fits h) = shortened n n' _ e over e' fits part h
  Outcome-step n e over part (shortened _ n' out _ _ e' fits p h) =
      shortened n n' out e over e' fits (IsPart-trans p part) h
  Outcome-step n e over part (too_large n' core e' o p c s h) =
      too_large n' core e' o (IsPart-trans p part) c s h

  abbrev rounds : ℕ → List Message → Bool → Result (List Message × Bool)
  rounds = trim_rounds str_dict estimator budget_tokens reserved_tokens

  Shrinks-IsPart :
      {ms : List Message} {span : ℕ × ℕ} → Shrinks ms span → IsPart (delete_span span ms) ms
  Shrinks-IsPart s = record {
    paired = s.paired;
    sub = s.sub;
    systems_kept = s.systems_kept;
    last_kept = s.last_kept;
  }

  -- A round that is over the budget, by what it finds to delete.
  round-Outcome :
      {ms : List Message} (k : ℕ) (compressed : Bool) (n : ℕ)
      → IsPaired ms
      → estimate ms ≡ ok n
      → leb n budget_tokens ≡ false
      → SpanCase ms (oldest_span ms)
      → ((span : ℕ × ℕ)
          → Shrinks ms span
          → Outcome (delete_span span ms) true (rounds k (delete_span span ms) true))
      → Outcome ms compressed (rounds (suc k) ms compressed)
  unfolding trim_rounds
  round-Outcome {ms} k compressed n p e over (stuck none_left c s) ih =
      too_large n ms e (ground arith) (IsPart-refl p) c s (rw (e, over, none_left))
  round-Outcome k compressed n p e over (found span at_span s) ih =
      rw (e, over, at_span) (Outcome-step n e (ground arith) (Shrinks-IsPart s) (ih span s))

  fitting :
      (k : ℕ) (ms : List Message) (compressed : Bool) (n : ℕ)
      → estimate ms ≡ ok n
      → leb n budget_tokens ≡ true
      → rounds k ms compressed ≡ ok (ms, compressed)
  unfolding trim_rounds
  fitting zero ms compressed n e fits = rw (e, fits)
  fitting (suc k) ms compressed n e fits = rw (e, fits)

  unmeasured :
      (k : ℕ) (ms : List Message) (e : Error) → estimate ms ≡ raise e → rounds k ms false ≡ raise e
  unfolding trim_rounds
  unmeasured zero ms e h = rw h
  unmeasured (suc k) ms e h = rw h

  last_round :
      (compressed : Bool) (n : ℕ)
      → estimate [] ≡ ok n
      → leb n budget_tokens ≡ false
      → rounds 0 [] compressed ≡ raise context_budget_error
  unfolding trim_rounds
  last_round compressed n e over = rw (e, over)

  trim_rounds-Outcome :
      (k : ℕ) (ms : List Message) (compressed : Bool) (n : ℕ)
      → IsPaired ms
      → length ms ≤ k
      → estimate ms ≡ ok n
      → Outcome ms compressed (rounds k ms compressed)
  trim_rounds-Outcome zero [] compressed n p h e = elim (Bool-cases (leb n budget_tokens)) [
    | inl fits ↦ unchanged n e (ground arith) (fitting 0 [] compressed n e fits)
    | inr over ↦
        too_large n [] e (ground arith) (IsPart-refl p) tt tt (last_round compressed n e over)
  ]
  trim_rounds-Outcome zero (m ∷ ms) compressed n p h e = absurd (omega arith)
  trim_rounds-Outcome (suc k) ms compressed n p h e = elim (Bool-cases (leb n budget_tokens)) [
    | inl fits ↦ unchanged n e (ground arith) (fitting (suc k) ms compressed n e fits)
    | inr over ↦ round-Outcome k compressed n p e over (oldest_span-SpanCase p) (λ span s.
        let (n', e', _) = estimate-delete_span ms span s str_dict estimator reserved_tokens n e in
        trim_rounds-Outcome k (delete_span span ms) true n' s.paired
          (omega (arith, length-delete_span ms span s)) e')
  ]

  -- Whenever the paired history can be measured, the trimmer ends in one of three ways. It returns
  -- the paired history unchanged, which fits the budget. It returns, marked as compressed, a part of
  -- the history that did not fit: whole groups only, every system message, the last message if it
  -- is neither a call nor a tool result, in order, and within the budget. Or it raises `ContextBudgetError`, and then a part with no call left, with every system
  -- message and at most one other message, the last, is over the budget by itself.
  pub trim-Outcome :
      (messages : List Message) (n : ℕ)
      → estimate (pair_tool_messages messages) ≡ ok n
      → Outcome
          (pair_tool_messages messages)
          false
          (trim str_dict estimator budget_tokens reserved_tokens messages)
  unfolding trim
  trim-Outcome messages n e =
      trim_rounds-Outcome (length (pair_tool_messages messages)) (pair_tool_messages messages) false
        n (pair_tool_messages-IsPaired messages) (omega arith) e

  -- A history with a text that cannot be measured is refused, with the estimator's own error.
  pub trim-unmeasured :
      (messages : List Message) (e : Error)
      → estimate (pair_tool_messages messages) ≡ raise e
      → trim str_dict estimator budget_tokens reserved_tokens messages ≡ raise e
  unfolding trim
  trim-unmeasured messages e h = unmeasured (length (pair_tool_messages messages)) _ e h
