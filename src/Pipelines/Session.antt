-- ===== src/Pipelines/Session.antt =====
-- `RunSession` of src/agent_runtime/session.py: what the phases of a run share. The control is what it
-- answers each time that it is asked, and the session counts how often it was.
use coresmos.Prelude.{ℕ, ◌+◌, Option, List}
use coresmos.Contracts.Enums.{StopReason}
use coresmos.Contracts.Receipts.{RecordTarget}
use coresmos.Contracts.Capabilities.{ContextContribution}
use coresmos.Contracts.Steps.{ExternalWorkRef}
use coresmos.Context.Budget.Ledger.{ExecutionBudgetLedger, reserve}
use coresmos.Capabilities.Sessions.{Shared}
use coresmos.Recording.Store.{MemoryTranscript, Exec}
use coresmos.Loop.Allocation.{raise_if_stopped}
use coresmos.Generators.{Generator, call}
use coresmos.Pipelines.Application.{MemoryApplicationState}

pub record RunSession : Type 0 where
  pub transcript : MemoryTranscript
  pub capabilities : Shared
  pub application : MemoryApplicationState
  pub record_target : RecordTarget
  pub execution_budget : ExecutionBudgetLedger
  pub policy_calls : ℕ
  pub completion_policy_calls : ℕ
  pub extra_contributions : List ContextContribution
  pub external_work : List ExternalWorkRef
  pub asked : ℕ

-- The first reason to stop, by the number of times that the control was asked before.
abbrev pub Control : Type 0
Control = ℕ → Option StopReason

module _ {E : Type 0} where
  -- `raise_if_stopped(self._session.control)`, and a wait that a stop interrupts.
  unfoldable pub ask : Control → Generator RunSession E (Unit {0})
  ask control = call (λ s. (raise_if_stopped (control s.asked), record s { asked = s.asked + 1 }))

  -- A call of the transcript.
  unfoldable pub recording : {A : Type 0} → Exec A → Generator RunSession E A
  recording operation =
      call (λ s. ((operation s.transcript).0, record s { transcript = (operation s.transcript).1 }))

  -- `session.execution_budget.reserve(tokens)`
  unfoldable pub reserving : ℕ → Generator RunSession E (Unit {0})
  reserving tokens = call (λ s. (
    (reserve tokens s.execution_budget).0,
    record s { execution_budget = (reserve tokens s.execution_budget).1 },
  ))
