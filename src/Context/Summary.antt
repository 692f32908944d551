-- ===== src/Context/Summary.antt =====
-- `SummarizingCompressor` of src/agent_runtime/context/compress.py: older units are replaced by a
-- summary, which the summarizer, a parameter, makes.
use mathlib.Core.List.{flatten}
use coresmos.Prelude.{
  ℕ, zero, suc, ◌-◌, ◌/◌, ◌≤◌, ◌≡◌, max, leb, if◌then◌else◌, Bool, true, false, none, some, List,
  [], ◌∷◌, ◌++◌, length, take, drop, Text, arith, inl, inr, Bool-cases, Option-cases,
}
use coresmos.Errors.{Result, ok, raise, ◌>>=◌, >>=-returns, context_budget_error}
use coresmos.Json.{Fields}
use coresmos.Contracts.Enums.{Role}
use coresmos.Contracts.Messages.{Message}
use coresmos.Context.Pairing.{pair_tool_messages}
use coresmos.Context.Groups.{group_messages}
use coresmos.Context.Budget.{TokenEstimator, estimate_messages}
use coresmos.Context.Trim.{is_system, trim, trim_rounds, oldest_span, delete_span}

-- `[item for item in paired if item.role is Role.SYSTEM]`, and the others.
unfoldable pub systems_of : List Message → List Message
systems_of [] = []
systems_of (m ∷ ms) = let rest = systems_of ms in if is_system m then m ∷ rest else rest

unfoldable pub others_of : List Message → List Message
others_of [] = []
others_of (m ∷ ms) = let rest = others_of ms in if is_system m then rest else m ∷ rest

pub record SummarizingCompressor : Type 0 where
  -- `summarizer.summarize(messages, budget_tokens)`
  pub summarize : List Message → ℕ → Result Text
  pub keep_recent_units : ℕ
  pub source : Text

module _ (str_dict : Fields → Text) (estimator : TokenEstimator)
    (budget_tokens reserved_tokens : ℕ) where
  abbrev estimate : List Message → Result ℕ
  estimate ms = estimate_messages str_dict estimator reserved_tokens ms

  -- A view that can be measured and is within the budget.
  pub record FitsBudget (view : List Message) : Type 0 where
    pub tokens : ℕ
    pub measured : estimate view ≡ ok tokens
    pub within : tokens ≤ budget_tokens

  abbrev checked : List Message → Bool → Result (List Message × Bool) → Result (List Message × Bool)
  checked ms compressed otherwise =
      estimate ms >>= λ n. if leb n budget_tokens then ok (ms, compressed) else otherwise

  -- A checked view fits, if it is not what comes otherwise that is returned.
  checked-FitsBudget :
      (ms view : List Message) (c c' : Bool) (otherwise : Result (List Message × Bool))
      → checked ms c otherwise ≡ ok (view, c')
      → (otherwise ≡ ok (view, c') → FitsBudget view)
      → FitsBudget view
  checked-FitsBudget ms view c c' otherwise h other =
      let (n, measured, rest) = >>=-returns (estimate ms) _ h in
      elim (Bool-cases (leb n budget_tokens)) [
        | inl fits ↦ at_once n measured fits (rw fits at rest)
        | inr over ↦ other (rw over at rest)
      ]
    where
      same_view : ◌≡◌ {A = Result (List Message × Bool)} (ok (ms, c)) (ok (view, c')) → ms ≡ view
      same_view p = cc

      at_once :
          (n : ℕ)
          → estimate ms ≡ ok n
          → leb n budget_tokens ≡ true
          → ◌≡◌ {A = Result (List Message × Bool)} (ok (ms, c)) (ok (view, c'))
          → FitsBudget view
      at_once n measured fits p =
          rw (← same_view p) (record { tokens = n; measured = measured; within = ground arith })

  trim_rounds-FitsBudget :
      (k : ℕ) (ms view : List Message) (c c' : Bool)
      → trim_rounds str_dict estimator budget_tokens reserved_tokens k ms c ≡ ok (view, c')
      → FitsBudget view
  unfolding trim_rounds
  trim_rounds-FitsBudget zero ms view c c' h =
      checked-FitsBudget ms view c c' (raise context_budget_error) h (λ p. absurd (cc p))
  trim_rounds-FitsBudget (suc k) ms view c c' h = checked-FitsBudget ms view c c' _ h (λ p.
      elim (Option-cases (oldest_span ms)) [
        | inl e ↦ absurd (cc (rw e at p))
        | inr (span, e) ↦ trim_rounds-FitsBudget k (delete_span span ms) view true c' (rw e at p)
      ])

  trim-FitsBudget :
      (ms view : List Message) (c : Bool)
      → trim str_dict estimator budget_tokens reserved_tokens ms ≡ ok (view, c)
      → FitsBudget view
  unfolding trim
  trim-FitsBudget ms view c h =
      trim_rounds-FitsBudget (length (pair_tool_messages ms)) (pair_tool_messages ms) view false c h

  module _ (compressor : SummarizingCompressor) where
    abbrev pub summary : Text → Message
    summary text = record {
      role = Role.system;
      content = some text;
      tool_calls = [];
      tool_call_id = none;
      name = some compressor.source;
      reasoning = none;
      message_id = none;
    }

    -- The view with the summary, or that view trimmed.
    unfoldable pub with_summary :
        List Message → List Message → List Message → Result (List Message × Bool)
    with_summary systems dropped kept =
        compressor.summarize dropped (max 1 (budget_tokens / 4)) >>= λ text.
        let view = systems ++ summary text ∷ kept in
        checked view true (
          trim str_dict estimator budget_tokens reserved_tokens view >>= λ trimmed.
          ok (trimmed.0, true))

    unfoldable pub summarize_or_trim : List Message → Result (List Message × Bool)
    unfolding with_summary systems_of others_of
    summarize_or_trim paired =
        let units = group_messages (others_of paired) in
        let cut = length units - max 1 compressor.keep_recent_units in
        elim (flatten (take cut units)) [
          | [] ↦ trim str_dict estimator budget_tokens reserved_tokens paired
          | d ∷ ds ↦ with_summary (systems_of paired) (d ∷ ds) (flatten (drop cut units))
        ]

    -- `SummarizingCompressor.compress`
    unfoldable pub compress : List Message → Result (List Message × Bool)
    unfolding summarize_or_trim
    compress messages =
        let paired = pair_tool_messages messages in checked paired false (summarize_or_trim paired)

    with_summary-FitsBudget :
        (systems dropped kept view : List Message) (c : Bool)
        → with_summary systems dropped kept ≡ ok (view, c)
        → FitsBudget view
    unfolding with_summary
    with_summary-FitsBudget systems dropped kept view c h =
        let (text, _, rest) =
          >>=-returns (compressor.summarize dropped (max 1 (budget_tokens / 4))) _ h in
        checked-FitsBudget (systems ++ summary text ∷ kept) view true c _ rest (λ p.
          let (trimmed, e, q) =
            >>=-returns
              (trim str_dict estimator budget_tokens reserved_tokens
                (systems ++ summary text ∷ kept))
              _ p in
          trim-FitsBudget _ view trimmed.1 (same_trimmed trimmed e q))
      where
        same_trimmed :
            {r : Result (List Message × Bool)} (trimmed : List Message × Bool)
            → r ≡ ok trimmed
            → ◌≡◌ {A = Result (List Message × Bool)} (ok (trimmed.0, true)) (ok (view, c))
            → r ≡ ok (view, trimmed.1)
        same_trimmed trimmed e q = cc

    -- Whatever the summarizer answers: a view that the compressor returns can be measured and is
    -- within the budget.
    pub compress-FitsBudget :
        (messages view : List Message) (compressed : Bool)
        → compress messages ≡ ok (view, compressed)
        → FitsBudget view
    unfolding compress summarize_or_trim
    compress-FitsBudget messages view compressed h =
        checked-FitsBudget (pair_tool_messages messages) view false compressed _ h
          (λ p. by_dropped (flatten (take cut units)) p)
      where
        paired : List Message
        paired = pair_tool_messages messages

        units : List (List Message)
        units = group_messages (others_of paired)

        cut : ℕ
        cut = length units - max 1 compressor.keep_recent_units

        by_dropped :
            (dropped : List Message)
            → (elim dropped [
              | [] ↦ trim str_dict estimator budget_tokens reserved_tokens paired
              | d ∷ ds ↦ with_summary (systems_of paired) (d ∷ ds) (flatten (drop cut units))
            ])
              ≡ ok (view, compressed)
            → FitsBudget view
        by_dropped [] p = trim-FitsBudget paired view compressed p
        by_dropped (d ∷ ds) p =
            with_summary-FitsBudget (systems_of paired) (d ∷ ds) (flatten (drop cut units)) view
              compressed p
