-- ===== src/Contracts/Steps.antt =====
-- A step of src/agent_runtime/contracts.py: its identity, what the model is asked and answers, and the
-- events of the phases. A temperature is counted in thousandths, and the clock in units.
use coresmos.Prelude.{ℕ, Bool, true, false, ◌||◌, List, [], ◌∷◌, Option, none, some, Text}
use coresmos.Json.{Fields}
use coresmos.Contracts.Messages.{ToolSpec, ToolCall, ToolResult, Message}
use coresmos.Contracts.Receipts.{RecordTarget, MessageReceipt, BatchReceipt}
use coresmos.Contracts.Flows.{FlowDecision, RecoveryBudget}
use coresmos.Contracts.Capabilities.{CapabilitySnapshot, ContextContribution}

pub record StepIdentity : Type 0 where
  pub run_id : Text
  pub step_no : ℕ
  pub model_round : ℕ

pub data UsageSource : Type 0 where
  provider estimated missing : UsageSource

pub record TokenUsage : Type 0 where
  pub input_tokens : Option ℕ
  pub output_tokens : Option ℕ
  pub total_tokens : Option ℕ
  pub source : UsageSource

pub record ModelResult : Type 0 where
  pub text : Option Text
  pub reasoning : Option Text
  pub tool_calls : List ToolCall
  pub usage : TokenUsage
  pub finish_reason : Option Text
  pub attempt : ℕ

module _ (is_space : ℕ → Bool) where
  -- `bool(text.strip())`: some character is no whitespace.
  unfoldable pub has_ink : Text → Bool
  has_ink [] = false
  has_ink (c ∷ cs) = elim (is_space c) [ false ↦ true | true ↦ has_ink cs ]

  unfoldable pub has_text : Option Text → Bool
  unfolding has_ink
  has_text none = false
  has_text (some t) = has_ink t

  abbrev has_calls : List ToolCall → Bool
  has_calls [] = false
  has_calls (c ∷ cs) = true

  unfoldable pub is_effective : ModelResult → Bool
  unfolding has_text
  is_effective r = has_text r.text || has_calls r.tool_calls

pub data ToolChoiceMode : Type 0 where
  auto none_mode required named : ToolChoiceMode

pub record ToolChoice : Type 0 where
  pub mode : ToolChoiceMode
  pub name : Option Text

pub record ModelConfig : Type 0 where
  pub model : Text
  pub temperature : Option ℕ
  pub extra : List (Text × Text)

pub record ModelRequest : Type 0 where
  pub messages : List Message
  pub tools : List ToolSpec
  pub model : ModelConfig
  pub tool_choice : ToolChoice
  pub recovery : RecoveryBudget
  pub deadline_monotonic : Option ℕ

pub record ContextVersion : Type 0 where
  pub history_version : Text
  pub capability_version : Text
  pub application_version : Text
  pub target : RecordTarget

pub record PreparedContext : Type 0 where
  pub messages : List Message
  pub contributions : List ContextContribution
  pub estimated_tokens : ℕ
  pub compressed : Bool

pub record PreparedStep : Type 0 where
  pub identity : StepIdentity
  pub record_target : RecordTarget
  pub request : ModelRequest
  pub capabilities : CapabilitySnapshot
  pub context_version : ContextVersion
  pub estimated_tokens : ℕ
  pub context : Option PreparedContext

pub record ExternalWorkRef : Type 0 where
  pub call_id : Text
  pub tool_name : Text
  pub handle : Text
  pub cancellable : Bool
  pub detail : Option Text

pub data ModelStepEvent : Type 0 where
  text_delta : StepIdentity → Text → ℕ → Option MessageReceipt → ModelStepEvent
  reasoning_delta : StepIdentity → Text → ℕ → ModelStepEvent
  model_completed : StepIdentity → ModelResult → Option MessageReceipt → ModelStepEvent

pub data ToolBatchEvent : Type 0 where
  tool_calls_recorded : StepIdentity → BatchReceipt → ToolBatchEvent
  tool_progress : StepIdentity → Text → Fields → ToolBatchEvent
  external_work_declared : StepIdentity → ExternalWorkRef → ToolBatchEvent
  tool_result : StepIdentity → ToolResult → ToolBatchEvent
  tool_batch_completed :
      StepIdentity → FlowDecision → List ToolResult → BatchReceipt → ToolBatchEvent

pub record CompletionCompleted : Type 0 where
  pub identity : StepIdentity
  pub decision : FlowDecision
  pub receipt : MessageReceipt

-- `ToolBatchCommand`, of a loop or an entry.
pub record ToolBatchCommand : Type 0 where
  pub identity : StepIdentity
  pub record_target : RecordTarget
  pub calls : List ToolCall
  pub capabilities : CapabilitySnapshot
  pub assistant_text : Option Text
  pub reasoning : Option Text
  pub previous_receipt : Option BatchReceipt
  pub attempt : ℕ
