-- ===== src/Contracts/Flows.antt =====
-- Control decisions and budgets of src/agent_runtime/contracts.py.
use coresmos.Prelude.{ℕ, ◌-◌, Bool, List, Option, Text}
use coresmos.Contracts.Enums.{Flow}

pub record PendingRef : Type 0 where
  pub value : Text
  pub completed_call_ids : List Text

pub record FlowDecision : Type 0 where
  pub flow : Flow
  pub reason : Option Text
  pub pending_ref : Option PendingRef

-- A back-off delay is a number of milliseconds, for the source's float of seconds.
pub record RecoveryBudget : Type 0 where
  pub max_attempts : ℕ
  pub remaining_attempts : ℕ
  pub backoff_seconds : List ℕ
  pub retry_partial_output : Bool

-- `max(0, remaining - 1)`
unfoldable pub consume : RecoveryBudget → RecoveryBudget
consume b = record b { remaining_attempts = b.remaining_attempts - 1 }

pub record ConsumedBudget : Type 0 where
  pub model_rounds : ℕ
  pub steps : ℕ
  pub estimated_tokens : ℕ

pub record ExecutionLimits : Type 0 where
  pub max_model_rounds : Option ℕ
  pub max_steps : Option ℕ
  pub max_estimated_tokens : Option ℕ
  pub deadline_seconds : Option ℕ
  pub recovery : RecoveryBudget
