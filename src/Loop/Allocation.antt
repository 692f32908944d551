-- ===== src/Loop/Allocation.antt =====
-- `allocate` of `AgentLoop.run` in src/agent_runtime/core.py: the numbers of steps and model rounds.
use coresmos.Prelude.{ℕ, ◌+◌, ltb, if◌then◌else◌, Bool, not, Option, none, some, Text}
use coresmos.Errors.{Result, ok, raise, require, ◌>>◌, budget_exhausted_error, cancelled_run_error}
use coresmos.Contracts.Enums.{StopReason}
use coresmos.Contracts.Flows.{ExecutionLimits}
pub use coresmos.Contracts.Steps.{StepIdentity}
use coresmos.Context.Budget.Ledger.{ExecutionBudgetLedger, raise_if_exhausted, exceeds}

-- The variables `step_no` and `model_rounds` of a run.
pub record Counters : Type 0 where
  pub step_no : ℕ
  pub model_rounds : ℕ

-- `raise_if_stopped(control)`, of the first reason to stop.
unfoldable pub raise_if_stopped : Option StopReason → Result (Unit {0})
raise_if_stopped none = ok tt
raise_if_stopped (some reason) = raise (cancelled_run_error reason)

module _ (run_id : Text) (limits : ExecutionLimits) where
  -- The checks for a step that asks the model.
  unfoldable pub check_model : ExecutionBudgetLedger → Counters → Result (Unit {0})
  check_model budget c =
      require (ltb 0 limits.recovery.remaining_attempts) budget_exhausted_error
      >> (raise_if_exhausted budget
          >> require (not (exceeds limits.max_model_rounds (c.model_rounds + 1)))
              budget_exhausted_error)

  abbrev pub next : Bool → Counters → Counters
  next consume_model c = record {
    step_no = c.step_no + 1;
    model_rounds = if consume_model then c.model_rounds + 1 else c.model_rounds;
  }

  abbrev pub identity : Counters → StepIdentity
  identity c = record { run_id = run_id; step_no = c.step_no; model_round = c.model_rounds }

  unfoldable pub check_allocate :
      Option StopReason → ExecutionBudgetLedger → Bool → Counters → Result (Unit {0})
  unfolding raise_if_stopped check_model
  check_allocate stop budget consume_model c =
      raise_if_stopped stop
      >> (require (not (exceeds limits.max_steps (c.step_no + 1))) budget_exhausted_error
          >> (if consume_model then check_model budget c else ok tt))

  -- The identity and the new counters; an exception leaves the old ones.
  unfoldable pub allocate :
      Option StopReason → ExecutionBudgetLedger → Bool → Counters → Result StepIdentity × Counters
  unfolding check_allocate
  allocate stop budget consume_model c = elim (check_allocate stop budget consume_model c) [
    | raise e ↦ (raise e, c)
    | ok _ ↦ (ok (identity (next consume_model c)), next consume_model c)
  ]
