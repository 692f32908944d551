-- ===== src/Contracts/Receipts.antt =====
-- The receipts of src/agent_runtime/contracts.py.
use coresmos.Prelude.{ℕ, Bool, List, Option, Text}

pub record RecordTarget : Type 0 where
  pub value : Text

pub record MessageReceipt : Type 0 where
  pub message_id : Text
  pub run_id : Text
  pub step_no : Option ℕ
  pub record_target : RecordTarget
  pub logical_op_id : Text
  pub created : Bool

pub record CallRecord : Type 0 where
  pub call_id : Text
  pub name : Text
  pub message_id : Text

pub record BatchReceipt : Type 0 where
  pub run_id : Text
  pub step_no : ℕ
  pub record_target : RecordTarget
  pub logical_op_id : Text
  pub calls : List CallRecord
  pub assistant_message_id : Option Text
  pub recording_required : Bool
  pub created : Bool
