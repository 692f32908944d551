-- ===== src/Context/Budget.antt =====
-- src/agent_runtime/context/budget.py: token estimates that fail closed, and the prompt budget.
-- `str` of a mapping is Python's own and is the parameter `str_dict`.
pub mod Estimates
pub mod Prompt
pub mod Ledger
use coresmos.Prelude.{
  ℕ, ◌+◌, ◌-◌, ◌/◌, max, leb, if◌then◌else◌, Bool, true, false, Option, none, some, List, [], ◌∷◌,
  ◌++◌, length, Text, not,
}
use coresmos.Errors.{Result, ok, raise, ◌>>=◌, ◌>>◌, require, context_budget_error}
use coresmos.Json.{Fields}
use coresmos.Contracts.Messages.{Message, ToolCall, ToolSpec}

-- The port that a host may replace: an estimate may raise.
pub record TokenEstimator : Type 0 where
  pub estimate_text : Text → Result ℕ
  pub estimate_schema : Fields → Result ℕ
  pub can_estimate : Text → Bool

-- `if text: yield text`
abbrev pub some_text : Option Text → List Text
some_text none = []
some_text (some []) = []
some_text (some (c ∷ cs)) = (c ∷ cs) ∷ []

-- The default estimator's parts: `max(1, (len(text) + 3) // 4)`, and 0 for no text.
unfoldable pub char_quarter : Text → ℕ
char_quarter [] = 0
char_quarter (c ∷ cs) = max 1 ((length (c ∷ cs) + 3) / 4)

module _ (str_dict : Fields → Text) where
  unfoldable pub call_texts : List ToolCall → List Text
  call_texts [] = []
  call_texts (c ∷ cs) = c.name ∷ str_dict c.arguments ∷ call_texts cs

  unfoldable pub estimable_texts : Message → List Text
  unfolding call_texts
  estimable_texts m =
      some_text m.content
      ++ (some_text m.reasoning ++ (call_texts m.tool_calls ++ some_text m.tool_call_id))

  unfoldable pub char_quarter_estimator : TokenEstimator
  unfolding char_quarter
  char_quarter_estimator = record {
    estimate_text = λ t. ok (char_quarter t);
    estimate_schema = λ s. ok (char_quarter (str_dict s));
    can_estimate = λ t. true;
  }

  module _ (estimator : TokenEstimator) where
    unfoldable pub estimate_texts : ℕ → List Text → Result ℕ
    estimate_texts total [] = ok total
    estimate_texts total (t ∷ ts) = do
      require (estimator.can_estimate t) context_budget_error
      n ← estimator.estimate_text t
      estimate_texts (total + n) ts

    -- `estimate_messages(messages, estimator, reserved_tokens=total)`
    unfoldable pub estimate_messages : ℕ → List Message → Result ℕ
    unfolding estimate_texts estimable_texts
    estimate_messages total [] = ok total
    estimate_messages total (m ∷ ms) = do
      total' ← estimate_texts total (estimable_texts m)
      estimate_messages total' ms

    unfoldable pub estimate_tools : ℕ → List ToolSpec → Result ℕ
    unfolding estimate_texts
    estimate_tools total [] = ok total
    estimate_tools total (s ∷ specs) = do
      total' ← estimate_texts total (s.name ∷ s.description ∷ [])
      n ← estimator.estimate_schema s.parameters
      estimate_tools (total' + n) specs

pub record TokenBudgetPolicy : Type 0 where
  pub max_prompt_tokens : ℕ
  pub reserved_output_tokens : ℕ
  pub estimator : TokenEstimator

module _ (str_dict : Fields → Text) (policy : TokenBudgetPolicy) where
  open policy use {max_prompt_tokens, reserved_output_tokens, estimator}

  unfoldable pub estimate_model_attempt : List Message → List ToolSpec → Result ℕ
  unfolding estimate_messages estimate_tools
  estimate_model_attempt messages tools = do
    n ← estimate_messages str_dict estimator 0 messages
    k ← estimate_tools str_dict estimator 0 tools
    ok (n + k + reserved_output_tokens)

  -- `max_prompt_tokens - reserved`, refused if it is not positive.
  unfoldable pub available_for_prompt : List ToolSpec → Result ℕ
  unfolding estimate_tools
  available_for_prompt tools = do
    k ← estimate_tools str_dict estimator 0 tools
    let reserved = reserved_output_tokens + k
    require (not (leb max_prompt_tokens reserved)) context_budget_error
    ok (max_prompt_tokens - reserved)
