-- ===== src/Tests/Provider.antt =====
-- The theorems on src/agent_runtime/context/manager.py at concrete reads and prompts.
use coresmos.Prelude.{
  pos, ℕ, ◌==◌, ◌≡◌, refl, Bool, none, some, get, if◌then◌else◌, true, false, List, [], ◌∷◌, codes,
  Text, Text-discrete, put,
}
use coresmos.Json.{Fields}
use coresmos.Errors.{Result, ok}
use coresmos.Contracts.Messages.{Message}
use coresmos.Contracts.Receipts.{RecordTarget}
use coresmos.Capabilities.Sessions.{CapabilitySnapshot}
use coresmos.Recording.Runs.{TranscriptSnapshot}
use coresmos.Context.Provider
use coresmos.Context.Preparing
use coresmos.Context.Preparing.{ProviderState, StepView, prepare, Prepares}
use coresmos.Context.Budget.{
  TokenBudgetPolicy, char_quarter_estimator, available_for_prompt, estimate_messages,
  estimate_model_attempt,
}
use coresmos.Context.Merging.{MergeKey-discrete}
use coresmos.Context.Pairing.{pair_tool_messages}
use coresmos.Contracts.Steps.{ToolChoiceMode}
use coresmos.Contracts.Capabilities.{ContextContribution}
use coresmos.Tests.Data.{is_ok, two_attempts, first_step}
use coresmos.Context.Contributors.{ContextContributor, collect}
use coresmos.Context.Provider.{
  is_consistent, Snapshots, ApplicationSnapshot, Reading, Read, read_consistent, project,
  Projections, get_projection, stored_messages,
}

abbrev chat : RecordTarget
chat = record { value = codes "chat" }

abbrev history : Text → TranscriptSnapshot
history version = record { version = version; record_target = chat; messages = [] }

abbrev capabilities : CapabilitySnapshot
capabilities = record {
  version = codes "cap-1";
  tools = [];
  binding_ref = record { version = codes "bind-1" };
  contributions = [];
  policy_ref = codes "fixed";
}

abbrev application : ApplicationSnapshot
application = record { version = codes "a1"; record_target = chat; payload = Fields.end }

-- The transcript moves on during the first round only.
abbrev read : ℕ → Reading
read n = record {
  target = chat;
  history = history (if n == 0 then codes "v1" else codes "v2");
  capabilities = capabilities;
  application = application;
  history_again = history (codes "v2");
  capabilities_again = capabilities;
  application_again = application;
  target_again = chat;
}

read_consistent-Read_example : Read read 3 0 (read_consistent read)
read_consistent-Read_example = Provider.read_consistent-Read read

abbrev keep : List Message → Result (List Message × Bool)
keep ms = ok (ms, false)

abbrev note : ContextContributor
note = record {
  cache_key = some (codes "static:chat");
  contribute = ok (
      record {
        source = codes "notes";
        content = codes "be brief";
        scope = codes "run";
        priority = pos 1;
        dedupe_key = codes "n";
      }
      ∷ []);
}

-- Every mapping prints as two characters.
abbrev printed : Fields → Text
printed f = codes "{}"

abbrev prompt_budget : TokenBudgetPolicy
prompt_budget = record {
  max_prompt_tokens = 40;
  reserved_output_tokens = 10;
  estimator = char_quarter_estimator printed;
}

abbrev step_view : StepView
step_view = record {
  record_target = chat;
  model = record { model = codes "synthetic"; temperature = none; extra = [] };
  tool_choice = record { mode = ToolChoiceMode.auto; name = none };
  recovery = two_attempts;
  deadline_monotonic = none;
  extra_contributions = [];
  contributors = λ a. note ∷ note ∷ [];
}

abbrev new_provider : ProviderState
new_provider = record { projections = []; contributor_cache = [] }

abbrev one_key : Snapshots → List ContextContribution → List Message → ℕ → Text
one_key snapshots merged messages available = codes "k"

prepare-Prepares_example :
    Prepares printed prompt_budget
      (λ available. keep)
      one_key
      step_view
      first_step
      read
      (prepare printed prompt_budget
        (λ available. keep)
        one_key
        step_view
        first_step
        read
        new_provider).0
prepare-Prepares_example =
    Preparing.prepare-Prepares printed prompt_budget (λ available. keep) one_key step_view
      first_step read new_provider

-- The step is prepared, with one system message for the two equal notes.
prepare_returns :
    is_ok
      (prepare printed prompt_budget
        (λ available. keep)
        one_key
        step_view
        first_step
        read
        new_provider).0
    ≡ true
unfolding prepare read_consistent char_quarter_estimator is_consistent Text-discrete collect get put
    available_for_prompt project estimate_messages MergeKey-discrete pair_tool_messages
    estimate_model_attempt
prepare_returns = refl
