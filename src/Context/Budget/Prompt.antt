-- ===== src/Context/Budget/Prompt.antt =====
-- The prompt budget and the default estimator of src/agent_runtime/context/budget.py.
use coresmos.Prelude.{ℕ, ◌+◌, ◌*◌, ◌≤◌, ◌≡◌, refl, List, [], ◌∷◌, Text, length, arith, inl, inr}
use coresmos.Errors.{ok, Result-cases}
use coresmos.Json.{Fields}
use coresmos.Contracts.Messages.{Message, ToolSpec}
use coresmos.Context.Budget.{
  TokenBudgetPolicy, estimate_texts, estimate_messages, estimate_tools, estimate_model_attempt,
  available_for_prompt, char_quarter, char_quarter_estimator, estimable_texts,
}

-- The default estimate is the number of characters divided by four, rounded up.
pub char_quarter_bounds :
    (t : Text) → (length t ≤ 4 * char_quarter t) × (4 * char_quarter t ≤ length t + 3)
unfolding char_quarter
char_quarter_bounds [] = omega arith
char_quarter_bounds (c ∷ cs) = omega arith

module _ (str_dict : Fields → Text) where
  texts-total :
      (total : ℕ) (ts : List Text)
      → (n : ℕ) × (estimate_texts str_dict (char_quarter_estimator str_dict) total ts ≡ ok n)
  unfolding estimate_texts char_quarter_estimator
  texts-total total [] = (total, refl)
  texts-total total (t ∷ ts) = texts-total (total + char_quarter t) ts

  -- With the default estimator every message can be measured.
  pub char_quarter-total :
      (total : ℕ) (ms : List Message)
      → (n : ℕ) × (estimate_messages str_dict (char_quarter_estimator str_dict) total ms ≡ ok n)
  unfolding estimate_messages
  char_quarter-total total [] = (total, refl)
  char_quarter-total total (m ∷ ms) =
      let (n, e) = texts-total total (estimable_texts str_dict m) in rw e (char_quarter-total n ms)

  -- A view that fits what `available_for_prompt` grants makes a request that, with its tool schemas
  -- and the reserved output, fits `max_prompt_tokens`.
  pub attempt-le-max_prompt_tokens :
      (policy : TokenBudgetPolicy) (tools : List ToolSpec) (view : List Message) (available n : ℕ)
      → available_for_prompt str_dict policy tools ≡ ok available
      → estimate_messages str_dict policy.estimator 0 view ≡ ok n
      → n ≤ available
      → (total : ℕ) × (estimate_model_attempt str_dict policy view tools ≡ ok total)
        × (total ≤ policy.max_prompt_tokens)
  unfolding available_for_prompt estimate_model_attempt
  attempt-le-max_prompt_tokens policy tools view available n granted costs fits =
      elim (Result-cases (estimate_tools str_dict policy.estimator 0 tools)) [
        | inr (e, fails) ↦ cc (granted, fails)
        | inl (k, schemas) ↦ (
          n + k + policy.reserved_output_tokens,
          rw (costs, schemas),
          ground (arith, granted, schemas),
        )
      ]
