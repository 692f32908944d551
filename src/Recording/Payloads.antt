-- ===== src/Recording/Payloads.antt =====
-- What an operation was called with, as `_payload_key` and `_receipt_identity` of
-- src/agent_runtime/recording.py compare it.
use coresmos.Prelude.{
  ℕ, ◌==◌, ite, Bool, true, false, ◌&&◌, Option, none, some, List, [], ◌∷◌, Text, Text-discrete,
  ℕ_discrete,
}
use coresmos.Json.{fields_eq}
use coresmos.Contracts.Enums.{Role, RunStatus}
use coresmos.Contracts.Messages.{ToolCall, ToolResult, Message}
use coresmos.Contracts.Receipts.{RecordTarget, MessageReceipt, CallRecord, BatchReceipt}

pub data Payload : Type 0 where
  input : Message → Payload
  text_delta : Text → ℕ → Payload
  text_final : Option Text → Option Text → List ToolCall → ℕ → Payload
  tool_calls : List ToolCall → Option Text → Option Text → Payload
  tool_results : List ToolResult → Payload
  run_final : RunStatus → Payload

unfoldable pub Role-discrete : Discrete Role
Role-discrete = hlevel

unfoldable pub RunStatus-discrete : Discrete RunStatus
RunStatus-discrete = hlevel

unfoldable pub OptionText-discrete : Discrete (Option Text)
unfolding Text-discrete
OptionText-discrete = hlevel Text-discrete

unfoldable pub OptionNat-discrete : Discrete (Option ℕ)
OptionNat-discrete = hlevel ℕ_discrete

unfoldable pub RecordTarget-discrete : Discrete RecordTarget
RecordTarget-discrete = hlevel Text-discrete

unfoldable pub CallRecords-discrete : Discrete (List CallRecord)
CallRecords-discrete = hlevel Text-discrete

-- `x == y` as a Boolean.
abbrev pub same {ℓ} : {A : Type ℓ} → Discrete A → A → A → Bool
same dec a b = ite (dec a b) true false

-- `(call_id, name, dict(arguments))`
unfoldable pub call_eq : ToolCall → ToolCall → Bool
call_eq a b =
    same Text-discrete a.call_id b.call_id
    && same Text-discrete a.name b.name
    && fields_eq a.arguments b.arguments

unfoldable pub calls_eq : List ToolCall → List ToolCall → Bool
unfolding call_eq
calls_eq [] [] = true
calls_eq (a ∷ xs) (b ∷ ys) = call_eq a b && calls_eq xs ys
calls_eq _ _ = false

abbrev same_flag : Bool → Bool → Bool
same_flag true b = b
same_flag false true = false
same_flag false false = true

-- `(call_id, name, output, is_error)`
unfoldable pub result_eq : ToolResult → ToolResult → Bool
result_eq a b =
    same Text-discrete a.call_id b.call_id
    && same Text-discrete a.name b.name
    && same Text-discrete a.output b.output
    && same_flag a.is_error b.is_error

unfoldable pub results_eq : List ToolResult → List ToolResult → Bool
unfolding result_eq
results_eq [] [] = true
results_eq (a ∷ xs) (b ∷ ys) = result_eq a b && results_eq xs ys
results_eq _ _ = false

-- A message without its `message_id`.
unfoldable pub message_eq : Message → Message → Bool
unfolding calls_eq
message_eq a b =
    same Role-discrete a.role b.role
    && same OptionText-discrete a.content b.content
    && calls_eq a.tool_calls b.tool_calls
    && same OptionText-discrete a.tool_call_id b.tool_call_id
    && same OptionText-discrete a.name b.name
    && same OptionText-discrete a.reasoning b.reasoning

unfoldable pub payload_eq : Payload → Payload → Bool
unfolding message_eq calls_eq results_eq
payload_eq (input a) (input b) = message_eq a b
payload_eq (text_delta s m) (text_delta t n) = same Text-discrete s t && m == n
payload_eq (text_final s r xs m) (text_final t q ys n) =
    same OptionText-discrete s t && same OptionText-discrete r q && calls_eq xs ys && m == n
payload_eq (tool_calls xs s r) (tool_calls ys t q) =
    calls_eq xs ys && same OptionText-discrete s t && same OptionText-discrete r q
payload_eq (tool_results xs) (tool_results ys) = results_eq xs ys
payload_eq (run_final s) (run_final t) = same RunStatus-discrete s t
payload_eq _ _ = false

-- `previous_receipt: MessageReceipt | BatchReceipt`
pub data Receipt : Type 0 where
  message : MessageReceipt → Receipt
  batch : BatchReceipt → Receipt

unfoldable pub message_identity_eq : MessageReceipt → MessageReceipt → Bool
message_identity_eq a b =
    same Text-discrete a.message_id b.message_id
    && same Text-discrete a.run_id b.run_id
    && same OptionNat-discrete a.step_no b.step_no
    && same RecordTarget-discrete a.record_target b.record_target
    && same Text-discrete a.logical_op_id b.logical_op_id

unfoldable pub batch_identity_eq : BatchReceipt → BatchReceipt → Bool
batch_identity_eq a b =
    same Text-discrete a.run_id b.run_id
    && a.step_no == b.step_no
    && same RecordTarget-discrete a.record_target b.record_target
    && same Text-discrete a.logical_op_id b.logical_op_id
    && same CallRecords-discrete a.calls b.calls
    && same OptionText-discrete a.assistant_message_id b.assistant_message_id
    && same_flag a.recording_required b.recording_required

-- `_receipt_identity(a) == _receipt_identity(b)`
unfoldable pub receipt_identity_eq : Option Receipt → Option Receipt → Bool
unfolding message_identity_eq batch_identity_eq
receipt_identity_eq none none = true
receipt_identity_eq (some (message a)) (some (message b)) = message_identity_eq a b
receipt_identity_eq (some (batch a)) (some (batch b)) = batch_identity_eq a b
receipt_identity_eq _ _ = false
