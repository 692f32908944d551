-- ===== src/Tests/Context.antt =====
-- The theorems on src/agent_runtime/context at concrete histories.
use mathlib.Core.List.{flatten}
use coresmos.Context.Summary
use coresmos.Context.Summary.{SummarizingCompressor, FitsBudget, compress, summary}
use coresmos.Prelude.{
  ℕ, ◌+◌, ◌≤◌, ◌≡◌, refl, true, false, none, some, List, [], ◌∷◌, Text, codes, arith, drop,
  Text-discrete, count, ℕ_discrete,
}
use coresmos.Errors.{ok}
use coresmos.Json.{Fields, end}
use coresmos.Contracts.Enums.{Role}
use coresmos.Contracts.Messages.{Message, ToolCall, ToolSpec}
use coresmos.Context.Pairing.{pair_tool_messages}
use coresmos.Context.Pairing.Spec.{IsPaired, Answers, done, plain, group}
use coresmos.Context.Pairing.Sound
use coresmos.Context.Pairing.Complete
use coresmos.Context.Pairing.Kept
use coresmos.Context.Pairing.Kept.{plain_of}
use coresmos.Context.Groups
use coresmos.Context.Groups.{group_messages}
use coresmos.Context.Groups.Units
use coresmos.Context.Budget.{
  TokenEstimator, TokenBudgetPolicy, char_quarter_estimator, estimate_messages,
  estimate_model_attempt, available_for_prompt,
}
use coresmos.Context.Budget.Prompt
use coresmos.Context.Budget.Ledger
use coresmos.Context.Trim.{trim}
use coresmos.Context.Trim.Results
use coresmos.Context.Trim.Results.{Outcome}
use coresmos.Context.Trim.Dropped

abbrev message : Role → Text → Message
message role content = record {
  role = role;
  content = some content;
  tool_calls = [];
  tool_call_id = none;
  name = none;
  reasoning = none;
  message_id = none;
}

abbrev prompt : Message
prompt = message Role.system (codes "be brief")

abbrev question : Message
question = message Role.user (codes "how warm is it?")

abbrev weather : ToolCall
weather = record { call_id = codes "c1"; name = codes "weather"; arguments = end }

abbrev asking : Message
asking = record (message Role.assistant (codes "let me see")) { tool_calls = weather ∷ [] }

abbrev reading : Message
reading = record (message Role.tool (codes "21")) { tool_call_id = some (codes "c1") }

-- A result that no call asked for.
abbrev stray : Message
stray = record (message Role.tool (codes "?")) { tool_call_id = some (codes "c9") }

abbrev history : List Message
history = prompt ∷ question ∷ asking ∷ reading ∷ stray ∷ []

abbrev paired : List Message
paired = prompt ∷ question ∷ asking ∷ reading ∷ []

pairs_history : pair_tool_messages history ≡ paired
unfolding pair_tool_messages Text-discrete ℕ_discrete
pairs_history = refl

-- A call whose result is missing is dropped with everything up to the next turn.
drops_broken : pair_tool_messages (asking ∷ stray ∷ question ∷ []) ≡ question ∷ []
unfolding pair_tool_messages Text-discrete ℕ_discrete
drops_broken = refl

asking-Answers : Answers asking (reading ∷ [])
unfolding count
asking-Answers = record {
  calling = refl;
  each = (record { tool = refl; named = refl }, tt);
  unique = λ t. ground arith;
  exact = λ t. refl;
}

paired-IsPaired : IsPaired paired
paired-IsPaired =
    plain prompt refl refl
      (plain question refl refl (group asking (reading ∷ []) [] asking-Answers done refl))

pair_tool_messages-IsPaired_example : IsPaired (pair_tool_messages history)
pair_tool_messages-IsPaired_example = Sound.pair_tool_messages-IsPaired history

plain_of-pair_tool_messages_example : plain_of (pair_tool_messages history) ≡ plain_of history
plain_of-pair_tool_messages_example = Kept.plain_of-pair_tool_messages history

pair-group_example :
    pair_tool_messages (asking ∷ reading ∷ stray ∷ [])
    ≡ asking ∷ reading ∷ pair_tool_messages (stray ∷ [])
pair-group_example = Complete.pair-group asking (reading ∷ []) (stray ∷ []) asking-Answers

pair_tool_messages_self_example : pair_tool_messages paired ≡ paired
pair_tool_messages_self_example = Complete.pair_tool_messages_self paired-IsPaired

flatten-group_messages_example : flatten (group_messages paired) ≡ paired
flatten-group_messages_example = Groups.flatten-group_messages paired

flatten-drop-IsPaired_example : IsPaired (flatten (drop 1 (group_messages paired)))
flatten-drop-IsPaired_example = Units.flatten-drop-IsPaired 1 paired-IsPaired

-- Every mapping prints as two characters.
abbrev braces : Fields → Text
braces f = codes "{}"

abbrev quarter : TokenEstimator
quarter = char_quarter_estimator braces

abbrev policy : TokenBudgetPolicy
policy = record { max_prompt_tokens = 40; reserved_output_tokens = 10; estimator = quarter }

abbrev thermometer : ToolSpec
thermometer = record { name = codes "weather"; description = codes "reads it"; parameters = end }

paired_costs : estimate_messages braces quarter 0 paired ≡ ok 14
unfolding estimate_messages char_quarter_estimator
paired_costs = refl

front_costs : estimate_messages braces quarter 0 (prompt ∷ question ∷ []) ≡ ok 6
unfolding estimate_messages char_quarter_estimator
front_costs = refl

tools_leave : available_for_prompt braces policy (thermometer ∷ []) ≡ ok 25
unfolding available_for_prompt char_quarter_estimator
tools_leave = refl

attempt-le-max_prompt_tokens_example :
    (total : ℕ) × (estimate_model_attempt braces policy paired (thermometer ∷ []) ≡ ok total)
    × (total ≤ 40)
attempt-le-max_prompt_tokens_example =
    Prompt.attempt-le-max_prompt_tokens braces policy (thermometer ∷ []) paired 25 14 tools_leave
      paired_costs (omega arith)

abbrev ledger : Ledger.ExecutionBudgetLedger
ledger = record { limit = some 10; reserved = 4 }

reserve_all-Fits_example :
    ((Ledger.reserve_all (5 ∷ 3 ∷ 1 ∷ []) ledger).0.reserved
      ≡ 4 + (Ledger.reserve_all (5 ∷ 3 ∷ 1 ∷ []) ledger).1)
    × ((Ledger.reserve_all (5 ∷ 3 ∷ 1 ∷ []) ledger).0.limit ≡ some 10)
    × Ledger.Fits (Ledger.reserve_all (5 ∷ 3 ∷ 1 ∷ []) ledger).0
reserve_all-Fits_example = Ledger.reserve_all-Fits (5 ∷ 3 ∷ 1 ∷ []) ledger refl

history_costs : estimate_messages braces quarter 0 (pair_tool_messages history) ≡ ok 14
history_costs = rw pairs_history paired_costs

trim-Outcome_example :
    Outcome braces quarter 12 0
      (pair_tool_messages history)
      false
      (trim braces quarter 12 0 history)
trim-Outcome_example = Results.trim-Outcome braces quarter 12 0 history 14 history_costs

trim-drops_last_example : trim braces quarter 12 0 paired ≡ ok (prompt ∷ question ∷ [], true)
trim-drops_last_example =
    Dropped.trim-drops_last asking (reading ∷ []) asking-Answers braces quarter 12 0
      (prompt ∷ question ∷ []) 14 6 ((refl, refl), ((refl, refl), tt)) paired_costs (omega arith)
      front_costs (omega arith)

-- Three questions of two tokens each, with room for four: the first two are summarized.
abbrev long_question : Message
long_question = record {
  role = Role.user;
  content = some (codes "abcdefgh");
  tool_calls = [];
  tool_call_id = none;
  name = none;
  reasoning = none;
  message_id = none;
}

abbrev summarizer : SummarizingCompressor
summarizer = record {
  summarize = λ ms n. ok (codes "abc");
  keep_recent_units = 1;
  source = codes "history_summary";
}

abbrev short_view : List Message
short_view = summary braces quarter 4 0 summarizer (codes "abc") ∷ long_question ∷ []

summarizes :
    compress braces quarter 4 0 summarizer (long_question ∷ long_question ∷ long_question ∷ [])
    ≡ ok (short_view, true)
unfolding compress estimate_messages pair_tool_messages char_quarter_estimator flatten
    group_messages
summarizes = refl

compress-FitsBudget_example : FitsBudget braces quarter 4 0 short_view
compress-FitsBudget_example =
    Summary.compress-FitsBudget braces quarter 4 0 summarizer
      (long_question ∷ long_question ∷ long_question ∷ []) short_view true summarizes
