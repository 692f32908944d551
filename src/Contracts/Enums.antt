-- ===== src/Contracts/Enums.antt =====
-- The enumerations of src/agent_runtime/contracts.py.
use coresmos.Prelude.{List, [], ◌∷◌}

pub data Flow : Type 0 where
  continue finish wait : Flow

pub data Role : Type 0 where
  system user assistant tool : Role

pub data StopReason : Type 0 where
  user_stop host_cancel consumer_closed deadline idle_timeout : StopReason

pub data MatchKind : Type 0 where
  matched no_match degraded rejected config_error : MatchKind

pub data LogicalOpKind : Type 0 where
  input text_delta text_final tool_calls tool_results run_final : LogicalOpKind

pub data RunStatus : Type 0 where
  running succeeded failed cancelled waiting : RunStatus

unfoldable pub Flow-discrete : Discrete Flow
Flow-discrete = hlevel

unfoldable pub LogicalOpKind-discrete : Discrete LogicalOpKind
LogicalOpKind-discrete = hlevel

-- The order in which a batch's decisions outrank one another.
abbrev pub flow_priority : List Flow
flow_priority = wait ∷ finish ∷ continue ∷ []
