-- ===== src/Tests/Data.antt =====
-- Values that several tests share.
use coresmos.Errors.{Result, ok, raise}
use coresmos.Json.{Fields}
use coresmos.Contracts.Messages.{ToolSpec}
use coresmos.Capabilities.Bindings.{BindingRegistry}
use coresmos.Recording.Runs.{empty}
use coresmos.Pipelines.Application.{new_application}
use coresmos.Pipelines.Session.{RunSession}
use coresmos.Prelude.{Bool, true, none, some, [], ◌∷◌, codes, false, Text}
use coresmos.Contracts.Receipts.{RecordTarget}
use coresmos.Contracts.Flows.{RecoveryBudget}
use coresmos.Contracts.Capabilities.{CapabilitySnapshot}
use coresmos.Contracts.Steps.{StepIdentity, PreparedStep, ModelResult, UsageSource, ToolChoiceMode}

abbrev pub chat : RecordTarget
chat = record { value = codes "chat" }

abbrev pub no_tools : CapabilitySnapshot
no_tools = record {
  version = codes "cap-1";
  tools = [];
  binding_ref = record { version = codes "bind-1" };
  contributions = [];
  policy_ref = codes "fixed";
}

abbrev pub two_attempts : RecoveryBudget
two_attempts = record {
  max_attempts = 2;
  remaining_attempts = 2;
  backoff_seconds = [];
  retry_partial_output = false;
}

-- A step of ten tokens with two attempts.
abbrev pub step_of : StepIdentity → PreparedStep
step_of i = record {
  identity = i;
  record_target = chat;
  request = record {
    messages = [];
    tools = [];
    model = record { model = codes "synthetic"; temperature = none; extra = [] };
    tool_choice = record { mode = ToolChoiceMode.auto; name = none };
    recovery = two_attempts;
    deadline_monotonic = none;
  };
  capabilities = no_tools;
  context_version = record {
    history_version = codes "v0:chat";
    capability_version = codes "cap-1";
    application_version = codes "app-1";
    target = chat;
  };
  estimated_tokens = 10;
  context = none;
}

abbrev pub saying : Text → ModelResult
saying t = record {
  text = some t;
  reasoning = none;
  tool_calls = [];
  usage = record {
    input_tokens = none;
    output_tokens = none;
    total_tokens = none;
    source = UsageSource.missing;
  };
  finish_reason = none;
  attempt = 1;
}

-- A tool without parameters, bound to the host's default.
abbrev pub find_spec : ToolSpec
find_spec = record { name = codes "find"; description = codes "finds"; parameters = Fields.end }

abbrev pub one_tool : CapabilitySnapshot
one_tool = record no_tools { tools = find_spec ∷ [] }

abbrev pub bound_find : BindingRegistry
bound_find = record {
  versions = (codes "bind-1", (codes "find", codes "default") ∷ []) ∷ [];
  seq = 1;
}

abbrev pub first_step : StepIdentity
first_step = record { run_id = codes "r"; step_no = 1; model_round = 1 }

-- The session of a new run.
abbrev pub new_session : RunSession
new_session = record {
  transcript = empty [];
  capabilities = (record { current = one_tool; seq = 1 }, bound_find);
  application = new_application chat;
  record_target = chat;
  execution_budget = record { limit = some 100; reserved = 0 };
  policy_calls = 0;
  completion_policy_calls = 0;
  extra_contributions = [];
  external_work = [];
  asked = 0;
}

abbrev pub is_ok : {A : Type 0} → Result A → Bool
is_ok (raise e) = false
is_ok (ok a) = true
