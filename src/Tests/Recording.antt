-- ===== src/Tests/Recording.antt =====
-- The theorems on src/agent_runtime/recording.py at concrete calls.
use coresmos.Prelude.{
  ◌≡◌, refl, true, none, some, [], ◌∷◌, codes, get, put, elem, Text-discrete, decimal,
}
use coresmos.Json.{Fields, fields_eq}
use coresmos.Errors.{ok}
use coresmos.Contracts.Enums.{Role, LogicalOpKind}
use coresmos.Contracts.Messages.{Message, ToolCall}
use coresmos.Contracts.Receipts.{RecordTarget, MessageReceipt}
use coresmos.Recording.Payloads.{Payload, payload_eq, calls_eq, OptionText-discrete}
use coresmos.Recording.Store.{
  MemoryTranscript, CommittedOp, find_op, check_fail, inject_write_failure,
}
use coresmos.Recording.Operations.{with_op, record_input, record_text_delta}
use coresmos.Recording.Batches.{record_tool_calls}
use coresmos.Recording.Runs.{empty, snapshot, TranscriptSnapshot}
use coresmos.Recording.Facts.{Kept, Ends, IsValid}
use coresmos.Recording.Writing.{Grows}
use coresmos.Recording.Safe.{IsSafe}
use coresmos.Recording.Histories
use coresmos.Recording.Histories.{Call, perform, Steps}
use coresmos.Recording.Snapshots
use coresmos.Recording.Snapshots.{IsSnapshot}
use coresmos.Recording.Again
use coresmos.Recording.Again.{not_created, batch_not_created}
use coresmos.Recording.Replays
use coresmos.Recording.Replays.{Replays, call_of}
use coresmos.Recording.Contents
use coresmos.Recording.Contents.{Appends}

abbrev chat : RecordTarget
chat = record { value = codes "chat" }

abbrev hello : Message
hello = record {
  role = Role.user;
  content = some (codes "hi");
  tool_calls = [];
  tool_call_id = none;
  name = none;
  reasoning = none;
  message_id = none;
}

abbrev lookup : ToolCall
lookup = record { call_id = codes "c1"; name = codes "find"; arguments = Fields.end }

-- The input fails once and is made again; a delta and a batch follow.
abbrev say_hello : Call
say_hello = Call.input (codes "r") chat hello (codes "op1")

abbrev say_more : Call
say_more = Call.text_delta (codes "r") 1 chat (codes "a") (codes "op2") 1 none

abbrev begun : MemoryTranscript
begun = (perform say_hello (empty [])).1

begun-Steps : Steps (empty []) begun
begun-Steps = Steps.then_perform Steps.start say_hello

abbrev after_failure : MemoryTranscript
after_failure =
    (perform say_more (perform say_hello (inject_write_failure (codes "op1") (empty []))).1).1

after_failure-Steps : Steps (empty []) after_failure
after_failure-Steps =
    Steps.then_perform (Steps.then_perform (Steps.then_inject Steps.start (codes "op1")) say_hello)
      say_more

begun-IsValid : IsValid begun
begun-IsValid = (Histories.Steps-Grows (Histories.empty-IsValid []) begun-Steps).valid

perform-IsSafe_example : IsSafe begun (perform say_more begun)
perform-IsSafe_example = Histories.perform-IsSafe say_more begun begun-IsValid

Steps-Grows_example : Grows (empty []) after_failure
Steps-Grows_example = Histories.Steps-Grows (Histories.empty-IsValid []) after_failure-Steps

snapshot-IsSnapshot_example :
    (snap : TranscriptSnapshot) × (snapshot chat after_failure ≡ ok snap)
    × IsSnapshot after_failure chat snap
snapshot-IsSnapshot_example = Snapshots.snapshot-IsSnapshot [] chat after_failure-Steps

batch_self :
    payload_eq
      (Payload.tool_calls (lookup ∷ []) none none)
      (Payload.tool_calls (lookup ∷ []) none none)
    ≡ true
unfolding payload_eq calls_eq OptionText-discrete fields_eq
batch_self = refl

record_tool_calls-again_example :
    Ends
      (Kept begun)
      (λ r s'.
        record_tool_calls (codes "r") 1 chat (lookup ∷ []) none none (codes "op2") none 1 s'
        ≡ (ok (batch_not_created r), s'))
      (record_tool_calls (codes "r") 1 chat (lookup ∷ []) none none (codes "op2") none 1 begun)
record_tool_calls-again_example =
    Again.record_tool_calls-again (codes "r") 1 chat (lookup ∷ []) none none (codes "op2") none 1
      begun begun-IsValid batch_self

new_op : find_op begun (codes "op2") ≡ none
unfolding perform record_input with_op get put check_fail elem empty Text-discrete
new_op = refl

record_text_delta-Appends_example :
    Ends
      (Kept begun)
      (λ r s'. Appends begun (codes "a") r.message_id s')
      (record_text_delta (codes "r") 1 chat (codes "a") (codes "op2") 1 none begun)
record_text_delta-Appends_example =
    Contents.record_text_delta-Appends (codes "r") 1 chat (codes "a") (codes "op2") 1 none begun
      begun-IsValid new_op

abbrev hello_receipt : MessageReceipt
hello_receipt = record {
  message_id = codes "msg:r:1";
  run_id = codes "r";
  step_no = none;
  record_target = chat;
  logical_op_id = codes "op1";
  created = true;
}

-- The id of the first input, for another run.
abbrev other_run : Call
other_run = Call.input (codes "q") chat hello (codes "op1")

abbrev first_op : CommittedOp
first_op = record {
  kind = LogicalOpKind.input;
  payload = Payload.input hello;
  run_id = codes "r";
  step_no = none;
  record_target = some chat;
  previous_receipt = none;
  message_receipt = some hello_receipt;
  message_receipts = hello_receipt ∷ [];
  batch_receipt = none;
}

first_op_found : find_op begun (codes "op1") ≡ some first_op
unfolding perform record_input with_op check_fail get put elem empty Text-discrete decimal
first_op_found = refl

perform-Replays_example : Replays (call_of other_run) first_op begun (perform other_run begun)
unfolding perform record_input with_op check_fail get put elem empty Text-discrete
perform-Replays_example =
    Replays.perform-Replays other_run begun first_op begun-IsValid refl first_op_found
