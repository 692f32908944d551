-- ===== src/Contracts/Messages.antt =====
-- Tools and messages of src/agent_runtime/contracts.py.
use coresmos.Prelude.{Bool, List, map, Option, Text}
use coresmos.Json.{Fields}
use coresmos.Contracts.Enums.{Role}

pub record ToolSpec : Type 0 where
  pub name : Text
  pub description : Text
  pub parameters : Fields

pub record ToolCall : Type 0 where
  pub call_id : Text
  pub name : Text
  pub arguments : Fields

pub record ToolResult : Type 0 where
  pub call_id : Text
  pub name : Text
  pub output : Text
  pub is_error : Bool

pub record Message : Type 0 where
  pub role : Role
  pub content : Option Text
  pub tool_calls : List ToolCall
  pub tool_call_id : Option Text
  pub name : Option Text
  pub reasoning : Option Text
  pub message_id : Option Text

-- `[call.call_id for call in message.tool_calls]`
abbrev pub call_ids : Message → List Text
call_ids m = map (λ (c : ToolCall). c.call_id) m.tool_calls
