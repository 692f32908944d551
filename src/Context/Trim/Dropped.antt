-- ===== src/Context/Trim/Dropped.antt =====
-- A history that ends in tool results, as in every step after a tool batch: the trimmer may drop its
-- last message.
use mathlib.Core.List.{append-nil}
use mathlib.Core.Option
use coresmos.Prelude.{
  ℕ, suc, ◌-◌, ◌≤◌, ◌<◌, ◌≡◌, refl, ap, sym, true, false, some, List, [], ◌∷◌, ◌++◌, All, length,
  drop, arith, if◌then◌else◌, Text, ltb, length-append,
}
use coresmos.Errors.{ok}
use coresmos.Json.{Fields}
use coresmos.Contracts.Messages.{Message, call_ids}
use coresmos.Context.Pairing.Spec.{Answers, IsPaired, done, group, IsPaired-append}
use coresmos.Context.Pairing.Complete.{Answers-nonempty, pair_tool_messages_self}
use coresmos.Context.Groups.{run_length}
use coresmos.Context.Groups.Units.{run_length-group}
use coresmos.Context.Budget.{TokenEstimator, estimate_messages}
use coresmos.Context.Trim.{shift, oldest_tool_group, oldest_span, delete_span, trim_rounds, trim}
use coresmos.Context.Trim.Rounds.{IsPlain, paired_all}

nonempty :
    {call : Message} (results : List Message)
    → Answers call results
    → (if ltb 0 (length results)
        then some (0, suc (length results))
        else Option.map shift (oldest_tool_group results))
      ≡ some (0, suc (length results))
nonempty {call} [] a = absurd (Answers-nonempty call a)
nonempty (r ∷ rs) a = ground arith

length-pos : {call : Message} (results : List Message) → Answers call results → 0 < length results
length-pos {call} [] a = absurd (Answers-nonempty call a)
length-pos (r ∷ rs) a = omega arith

drop-length : (ms : List Message) → drop (length ms) ms ≡ []
drop-length [] = refl
drop-length (m ∷ ms) = drop-length ms

module _ (call : Message) (results : List Message) (answers : Answers call results) where
  alone : IsPaired (call ∷ results)
  alone = group call results [] answers done (sym (append-nil results))

  group_first : oldest_tool_group (call ∷ results) ≡ some (0, suc (length results))
  unfolding oldest_tool_group
  group_first =
      let n : run_length (call_ids call) results ≡ length results =
        rw append-nil at (run_length-group call results [] answers done) in
      rw (answers.calling, n) (nonempty results answers)

  span_after :
      (front : List Message)
      → All IsPlain front
      → (s : ℕ × ℕ) × (oldest_tool_group (front ++ (call ∷ results)) ≡ some s)
        × (delete_span s (front ++ (call ∷ results)) ≡ front)
  unfolding oldest_tool_group
  span_after [] h = ((0, suc (length results)), group_first, drop-length results)
  span_after (m ∷ front) h =
      let (s, e, d) = span_after front h.1 in (shift s, rw (h.0.0, e), ap (◌∷◌ m) d)

  rounds_after :
      (str_dict : Fields → Text) (estimator : TokenEstimator) (budget_tokens reserved_tokens k : ℕ)
      (front : List Message) (n n' : ℕ)
      → All IsPlain front
      → estimate_messages str_dict estimator reserved_tokens (front ++ (call ∷ results)) ≡ ok n
      → budget_tokens < n
      → estimate_messages str_dict estimator reserved_tokens front ≡ ok n'
      → n' ≤ budget_tokens
      → trim_rounds str_dict estimator budget_tokens reserved_tokens
          (suc (suc k))
          (front ++ (call ∷ results))
          false
        ≡ ok (front, true)
  unfolding trim_rounds oldest_span
  rounds_after str_dict estimator budget_tokens reserved_tokens k front n n' h e over e' fits =
      let (s, found, left) = span_after front h in ground (arith, e, e', found, left)

  -- Let a history be plain messages followed by one call with its results, too large together, but
  -- not without the group. The trimmer returns the plain messages alone: the last message of the
  -- history, which holds the results that the next request is about, is dropped.
  pub trim-drops_last :
      (str_dict : Fields → Text) (estimator : TokenEstimator) (budget_tokens reserved_tokens : ℕ)
      (front : List Message) (n n' : ℕ)
      → All IsPlain front
      → estimate_messages str_dict estimator reserved_tokens (front ++ (call ∷ results)) ≡ ok n
      → budget_tokens < n
      → estimate_messages str_dict estimator reserved_tokens front ≡ ok n'
      → n' ≤ budget_tokens
      → trim str_dict estimator budget_tokens reserved_tokens (front ++ (call ∷ results))
        ≡ ok (front, true)
  unfolding trim
  trim-drops_last str_dict estimator budget_tokens reserved_tokens front n n' h e over e' fits =
      let all = front ++ (call ∷ results) in
      let long : length all ≡ suc (suc (length all - 2)) =
        omega (arith, length-append front (call ∷ results), length-pos results answers) in
      rw (pair_tool_messages_self (IsPaired-append (paired_all front h) alone), long)
        (rounds_after str_dict estimator budget_tokens reserved_tokens (length all - 2) front n n' h
          e over e' fits)
