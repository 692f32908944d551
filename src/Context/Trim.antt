-- ===== src/Context/Trim.antt =====
-- `ToolGroupCompressor` of src/agent_runtime/context/compress.py: deterministic trimming, whole tool
-- groups first, then plain turns, oldest first.
pub mod Spans
pub mod Rounds
pub mod Results
pub mod Dropped
use mathlib.Core.Option
use coresmos.Prelude.{
  ℕ, zero, suc, ltb, leb, if◌then◌else◌, Bool, true, false, ◌&&◌, Option, none, some, List, [], ◌∷◌,
  ◌++◌, length, take, drop, Text,
}
use coresmos.Errors.{Result, ok, raise, ◌>>=◌, context_budget_error}
use coresmos.Json.{Fields}
use coresmos.Contracts.Enums.{Role}
use coresmos.Contracts.Messages.{Message, call_ids}
use coresmos.Context.Pairing.{is_calling, pair_tool_messages}
use coresmos.Context.Groups.{run_length}
use coresmos.Context.Budget.{TokenEstimator, estimate_messages}

abbrev pub is_system_role : Role → Bool
is_system_role Role.system = true
is_system_role _ = false

-- `message.role is Role.SYSTEM`
abbrev pub is_system : Message → Bool
is_system m = is_system_role m.role

-- A span found one message further on.
abbrev pub shift : ℕ × ℕ → ℕ × ℕ
shift (start, end) = (suc start, suc end)

unfoldable pub oldest_tool_group : List Message → Option (ℕ × ℕ)
unfolding run_length
oldest_tool_group [] = none
oldest_tool_group (m ∷ ms) =
    let later = Option.map shift (oldest_tool_group ms) in
    let n = run_length (call_ids m) ms in if is_calling m && ltb 0 n then some (0, suc n) else later

-- The last message is not looked at: `messages[:-1]`.
unfoldable pub oldest_plain_turn : List Message → Option (ℕ × ℕ)
oldest_plain_turn [] = none
oldest_plain_turn (m ∷ []) = none
oldest_plain_turn (m ∷ m' ∷ ms) =
    let later = Option.map shift (oldest_plain_turn (m' ∷ ms)) in
    if is_system m then later else some (0, 1)

-- `_oldest_tool_group(paired) or _oldest_plain_turn(paired)`
unfoldable pub oldest_span : List Message → Option (ℕ × ℕ)
unfolding oldest_tool_group oldest_plain_turn
oldest_span ms = elim (oldest_tool_group ms) [ none ↦ oldest_plain_turn ms | some span ↦ some span ]

-- `del messages[start:end]`
abbrev pub delete_span : ℕ × ℕ → List Message → List Message
delete_span (start, end) ms = take start ms ++ drop end ms

module _ (str_dict : Fields → Text) (estimator : TokenEstimator)
    (budget_tokens reserved_tokens : ℕ) where
  -- Each round deletes a message or ends, so the messages bound the rounds; with none left there is
  -- no span to delete, and the loop ends as the last round says.
  unfoldable pub trim_rounds : ℕ → List Message → Bool → Result (List Message × Bool)
  trim_rounds zero ms compressed = do
    n ← estimate_messages str_dict estimator reserved_tokens ms
    if leb n budget_tokens then ok (ms, compressed) else raise context_budget_error
  trim_rounds (suc k) ms compressed = do
    n ← estimate_messages str_dict estimator reserved_tokens ms
    if leb n budget_tokens then ok (ms, compressed) else elim (oldest_span ms) [
      | none ↦ raise context_budget_error
      | some span ↦ trim_rounds k (delete_span span ms) true
    ]

  unfoldable pub trim : List Message → Result (List Message × Bool)
  unfolding trim_rounds
  trim messages =
      let paired = pair_tool_messages messages in trim_rounds (length paired) paired false
