-- ===== src/Tests/Pipelines.antt =====
-- The theorems on src/agent_runtime/pipelines at concrete steps.
use coresmos.Prelude.{
  List, ℕ, ◌≡◌, ◌==◌, ◌⊎◌, refl, Bool, true, false, none, some, [], ◌∷◌, codes, decimal, elem, get,
  put, ◌++◌, Text-discrete,
}
use coresmos.Json.{Fields}
use coresmos.Errors.{Result, ok}
use coresmos.Contracts.Enums.{Flow}
use coresmos.Contracts.Messages.{ToolSpec, ToolCall}
use coresmos.Contracts.Flows.{FlowDecision}
use coresmos.Contracts.Receipts.{MessageReceipt}
use coresmos.Contracts.Steps.{
  ToolBatchCommand, ModelResult, ModelStepEvent, text_delta, model_completed,
}
use coresmos.Recording.Payloads.{
  batch_identity_eq, RecordTarget-discrete, CallRecords-discrete, Payload, payload_eq, calls_eq,
  OptionText-discrete,
}
use coresmos.Recording.Store.{TextKey-discrete, check_fail}
use coresmos.Recording.Operations.{record_text_delta, record_text_final, with_op}
use coresmos.Recording.Histories
use coresmos.Recording.Again.{not_created}
use coresmos.Recording.Runs.{empty}
use coresmos.Loop.Streams.{ManagedEventStream}
use coresmos.Pipelines.Session.{RunSession, Control, ask, reserving, recording}
use coresmos.Pipelines.Protocol.{Served}
use coresmos.Pipelines.Model.{LowEvent, stream, final_op}
use coresmos.Pipelines.Phases.{stream-then-complete}
use coresmos.Pipelines.Model.Serving.{is_model_completed, stream-Served}
use coresmos.Pipelines.Tools.{Invoked, Waited, execute}
use coresmos.Pipelines.Tools.Outcomes.{InvocationOutcome, default_policy}
use coresmos.Pipelines.Tools.Serving.{is_batch_completed, execute-Served}
use coresmos.Pipelines.Tools.Answers.{IsAnswered, execute-IsAnswered}
use coresmos.Generators.Reaching.{Reached}
use coresmos.Pipelines.Tools.Committing.{IsRecorded, execute-IsRecorded}
use coresmos.Pipelines.Tools.Checks.{Runnable, IsRefused, execute-IsRefused_or}
use coresmos.Pipelines.Completion.{complete, finish_policy, check_decision, has_pending}
use coresmos.Pipelines.Completion.Committed.{asked_policy, record_final, complete-committed}
use coresmos.Generators.{◌>>=◌, call, yield, return, check, catch, throw, modify}
use coresmos.Loop.Allocation.{raise_if_stopped}
use coresmos.Context.Budget.Ledger.{reserve}
use coresmos.Contracts.Steps.{is_effective}
use coresmos.Recording.Batches.{record_tool_calls, record_tool_results}
use coresmos.Generators.Returning.{Returns}
use coresmos.Pipelines.Completion.Serving.{is_completed, complete-Served}
use coresmos.Tests.Data.{is_ok, step_of, saying, first_step, new_session, one_tool, chat}

abbrev is_blank : ℕ → Bool
is_blank c = c == 32

abbrev never : Control
never n = none

-- The model says a delta and completes; a second attempt is not needed.
abbrev greeting : ℕ → ManagedEventStream LowEvent
greeting n = record {
  items = LowEvent.text (codes "h") ∷ LowEvent.completed (saying (codes "hi")) ∷ [];
  failure = none;
}

stream-Served_example :
    Served is_model_completed (stream is_blank never (step_of first_step) greeting new_session)
stream-Served_example = stream-Served is_blank never (step_of first_step) greeting new_session

abbrev accept_all : ToolSpec → ToolCall → Result (Unit {0})
accept_all spec c = ok tt

abbrev find_it : ToolCall
find_it = record { call_id = codes "c1"; name = codes "find"; arguments = Fields.end }

abbrev found_it : InvocationOutcome
found_it = record {
  result = record {
    call_id = codes "c1";
    name = codes "find";
    output = codes "42";
    is_error = false;
  };
  flow_hint = none;
  next_record_target = none;
  activate_tools = [];
  contributions = [];
  state_payload = none;
}

abbrev finder : ℕ → ToolCall → Invoked
finder n c = record { reports = []; waited = Waited.ended (ok found_it); late = [] }

abbrev no_check : ToolSpec → Result (Unit {0})
no_check spec = ok tt

abbrev find_batch : ToolBatchCommand
find_batch = record {
  identity = first_step;
  record_target = chat;
  calls = find_it ∷ [];
  capabilities = one_tool;
  assistant_text = none;
  reasoning = none;
  previous_receipt = none;
  attempt = 1;
}

execute-Served_example :
    Served is_batch_completed
      (execute accept_all never finder (default_policy no_check) find_batch new_session)
execute-Served_example =
    execute-Served accept_all never finder (default_policy no_check) find_batch new_session

execute-IsAnswered_example :
    Returns
      (λ events _. IsAnswered accept_all never finder (default_policy no_check) find_batch events)
      (execute accept_all never finder (default_policy no_check) find_batch)
execute-IsAnswered_example =
    execute-IsAnswered accept_all never finder (default_policy no_check) find_batch

execute-IsRecorded_example :
    Reached
      (λ events _ s'. IsRecorded find_batch new_session.transcript events s'.transcript)
      (execute accept_all never finder (default_policy no_check) find_batch new_session)
execute-IsRecorded_example =
    execute-IsRecorded no_check accept_all never finder find_batch new_session

execute-IsRefused_or_example :
    IsRefused accept_all never finder (default_policy no_check) find_batch new_session
    ⊎ Runnable accept_all one_tool new_session.capabilities.1 find_batch.calls
execute-IsRefused_or_example =
    execute-IsRefused_or accept_all never finder (default_policy no_check) find_batch new_session

complete-Served_example :
    Served is_completed
      (complete finish_policy never (step_of first_step) (saying (codes "hi")) new_session)
complete-Served_example =
    complete-Served finish_policy never (step_of first_step) (saying (codes "hi")) new_session

hi_self :
    payload_eq
      (Payload.text_final (some (codes "hi")) none [] 1)
      (Payload.text_final (some (codes "hi")) none [] 1)
    ≡ true
unfolding payload_eq calls_eq OptionText-discrete
hi_self = refl

-- The session behind the commit of the final text.
abbrev committed_session : RunSession
committed_session = record new_session {
  transcript =
      (record_final finish_policy never (step_of first_step) (saying (codes "hi")) none
        (empty [])).1;
}

abbrev first_receipt : MessageReceipt
first_receipt = record {
  message_id = codes "msg:r:1";
  run_id = codes "r";
  step_no = some 1;
  record_target = chat;
  logical_op_id = codes "r:1:chat:a1:final";
  created = true;
}

committed_returns :
    record_final finish_policy never (step_of first_step) (saying (codes "hi")) none (empty [])
    ≡ (ok first_receipt, committed_session.transcript)
unfolding record_text_final with_op check_fail elem get put Text-discrete empty final_op decimal
committed_returns = refl

abbrev finished : FlowDecision
finished = record { flow = Flow.finish; reason = some (codes "default"); pending_ref = none }

complete-committed_example :
    complete finish_policy never (step_of first_step) (saying (codes "hi")) committed_session ≡ (
      record { identity = first_step; decision = finished; receipt = not_created first_receipt }
          ∷ [],
      ok tt,
      asked_policy finish_policy never (step_of first_step) (saying (codes "hi")) committed_session,
    )
unfolding finish_policy check_decision has_pending
complete-committed_example =
    complete-committed finish_policy never (step_of first_step) (saying (codes "hi")) none
      (empty []) first_receipt committed_session finished (Histories.empty-IsValid []) hi_self
      committed_returns refl refl refl

-- The session behind the model's greeting.
abbrev greeted : RunSession
greeted = (stream is_blank never (step_of first_step) greeting new_session).2

abbrev greeted_text : ModelResult
greeted_text = saying (codes "hi")

-- The delta made the message, so its commit does not create one.
abbrev greeted_receipt : MessageReceipt
greeted_receipt = record first_receipt { created = false }

abbrev greeted_first : List ModelStepEvent
greeted_first =
    text_delta first_step (codes "h") 1
      (some (record first_receipt { logical_op_id = codes "r:1:chat:a1:delta:1" }))
    ∷ []

greeting_returns : stream is_blank never (step_of first_step) greeting new_session ≡ (
  greeted_first ++ model_completed first_step greeted_text (some greeted_receipt) ∷ [],
  ok tt,
  greeted,
)
unfolding stream ◌>>=◌ ask call raise_if_stopped reserving reserve recording record_text_delta
    check_fail elem empty get put yield return is_effective record_text_final decimal Text-discrete
    TextKey-discrete final_op
greeting_returns = refl

stream-then-complete_example :
    complete finish_policy never (step_of first_step) greeted_text greeted ≡ (
      record { identity = first_step; decision = finished; receipt = not_created greeted_receipt }
          ∷ [],
      ok tt,
      asked_policy finish_policy never (step_of first_step) greeted_text greeted,
    )
unfolding finish_policy check_decision has_pending
stream-then-complete_example =
    stream-then-complete is_blank never (step_of first_step) greeting finish_policy greeted_first
      greeted_text greeted_receipt finished new_session greeted (Histories.empty-IsValid [])
      greeting_returns hi_self refl refl refl

-- The three phases return.
stream_returns : is_ok (stream is_blank never (step_of first_step) greeting new_session).1 ≡ true
unfolding stream ◌>>=◌ ask call raise_if_stopped reserving reserve recording record_text_delta
    check_fail elem empty get put yield return is_effective record_text_final decimal Text-discrete
    TextKey-discrete
stream_returns = refl

execute_returns :
    is_ok (execute accept_all never finder (default_policy no_check) find_batch new_session).1
    ≡ true
unfolding execute ◌>>=◌ ask call raise_if_stopped Text-discrete get recording record_tool_calls
    check_fail elem empty yield return check record_tool_results put decimal default_policy catch
    throw modify TextKey-discrete batch_identity_eq RecordTarget-discrete CallRecords-discrete
    OptionText-discrete
execute_returns = refl
