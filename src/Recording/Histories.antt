-- ===== src/Recording/Histories.antt =====
-- Sequences of operations on one transcript.
use coresmos.Prelude.{ℕ, refl, Option, List, Text, count, elem, get, arith}
use mathlib.Core.Bool.{false≢true}
use coresmos.Errors.{Result, ok}
use coresmos.Contracts.Enums.{RunStatus}
use coresmos.Contracts.Messages.{ToolCall, ToolResult, Message}
use coresmos.Contracts.Receipts.{RecordTarget, MessageReceipt, BatchReceipt}
use coresmos.Recording.Store.{MemoryTranscript, Exec, then_do, inject_write_failure}
use coresmos.Recording.Operations.{record_input, record_text_delta, record_text_final}
use coresmos.Recording.Batches.{record_tool_calls, record_tool_results}
use coresmos.Recording.Runs.{finalize_run, empty}
use coresmos.Recording.Facts.{
  IsValid, Kept, raised, returned, Ends-then_do, Kept-Extends, Kept-IsValid,
}
use coresmos.Recording.Writing.{Grows, Grows-refl, Grows-trans}
use coresmos.Recording.Safe.{
  IsSafe, record_input-IsSafe, record_text_delta-IsSafe, record_text_final-IsSafe,
  record_tool_calls-IsSafe, record_tool_results-IsSafe, finalize_run-IsSafe,
}

-- A call of one of the six operations.
pub data Call : Type 0 where
  input : (run_id : Text) (target : RecordTarget) (message : Message) (op : Text) → Call
  text_delta :
      (run_id : Text) (step_no : ℕ) (target : RecordTarget) (text op : Text) (attempt : ℕ)
      (previous : Option MessageReceipt)
      → Call
  text_final :
      (run_id : Text) (step_no : ℕ) (target : RecordTarget) (text reasoning : Option Text)
      (calls : List ToolCall) (op : Text) (attempt : ℕ) (previous : Option MessageReceipt)
      → Call
  tool_calls :
      (run_id : Text) (step_no : ℕ) (target : RecordTarget) (calls : List ToolCall)
      (text reasoning : Option Text) (op : Text) (previous : Option BatchReceipt) (attempt : ℕ)
      → Call
  tool_results :
      (run_id : Text) (step_no : ℕ) (target : RecordTarget) (results : List ToolResult) (op : Text)
      (previous : BatchReceipt)
      → Call
  finalize : (run_id : Text) (status : RunStatus) → Call

-- The receipt is left out.
abbrev pub forget : {A : Type 0} → Exec A → Exec (Unit {0})
forget m = then_do m (λ _ s. (ok tt, s))

unfoldable pub perform : Call → Exec (Unit {0})
perform (input run_id target message op) = forget (record_input run_id target message op)
perform (text_delta run_id step_no target text op attempt previous) =
    forget (record_text_delta run_id step_no target text op attempt previous)
perform (text_final run_id step_no target text reasoning calls op attempt previous) =
    forget (record_text_final run_id step_no target text reasoning calls op attempt previous)
perform (tool_calls run_id step_no target calls text reasoning op previous attempt) =
    forget (record_tool_calls run_id step_no target calls text reasoning op previous attempt)
perform (tool_results run_id step_no target results op previous) =
    forget (record_tool_results run_id step_no target results op previous)
perform (finalize run_id status) = forget (finalize_run run_id status)

forget-IsSafe :
    {A : Type 0} (m : Exec A) (s : MemoryTranscript) → IsSafe s (m s) → IsSafe s (forget m s)
forget-IsSafe m s h = Ends-then_do m (λ _ s'. (ok tt, s')) s h (λ _ s' g. returned tt s' g)

-- Every operation on a valid transcript either raises with all committed facts as they were, or
-- returns with a valid transcript that holds all facts of before.
pub perform-IsSafe : (c : Call) (s : MemoryTranscript) → IsValid s → IsSafe s (perform c s)
unfolding perform
perform-IsSafe (input run_id target message op) s v =
    forget-IsSafe (record_input run_id target message op) s
      (record_input-IsSafe run_id target message op s v)
perform-IsSafe (text_delta run_id step_no target text op attempt previous) s v =
    forget-IsSafe (record_text_delta run_id step_no target text op attempt previous) s
      (record_text_delta-IsSafe run_id step_no target text op attempt previous s v)
perform-IsSafe (text_final run_id step_no target text reasoning calls op attempt previous) s v =
    forget-IsSafe (record_text_final run_id step_no target text reasoning calls op attempt previous)
      s
      (record_text_final-IsSafe run_id step_no target text reasoning calls op attempt previous s v)
perform-IsSafe (tool_calls run_id step_no target calls text reasoning op previous attempt) s v =
    forget-IsSafe (record_tool_calls run_id step_no target calls text reasoning op previous attempt)
      s
      (record_tool_calls-IsSafe run_id step_no target calls text reasoning op previous attempt s v)
perform-IsSafe (tool_results run_id step_no target results op previous) s v =
    forget-IsSafe (record_tool_results run_id step_no target results op previous) s
      (record_tool_results-IsSafe run_id step_no target results op previous s v)
perform-IsSafe (finalize run_id status) s v =
    forget-IsSafe (finalize_run run_id status) s (finalize_run-IsSafe run_id status s v)

-- What can happen to a transcript: operations, which may raise, and injected failures.
pub data Steps (s : MemoryTranscript) : MemoryTranscript → Type 0 where
  start : Steps s s
  then_perform : {s' : MemoryTranscript} → Steps s s' → (c : Call) → Steps s (perform c s').1
  then_inject :
      {s' : MemoryTranscript} → Steps s s' → (op : Text) → Steps s (inject_write_failure op s')

pub Ends-Grows :
    {A : Type 0} {s : MemoryTranscript} {r : Result A × MemoryTranscript}
    → IsValid s
    → IsSafe s r
    → Grows s r.1
Ends-Grows v (raised e s' k) = record { valid = Kept-IsValid k v; extends = Kept-Extends k }
Ends-Grows v (returned a s' g) = g

inject-Grows : (op : Text) (s : MemoryTranscript) → IsValid s → Grows s (inject_write_failure op s)
unfolding inject_write_failure
inject-Grows op s v =
    let k : Kept s (inject_write_failure op s) = record {
      messages = refl;
      order = refl;
      ops = refl;
      text_ids = refl;
      version = refl;
      run_status = refl;
      seq = omega arith;
    } in
    record { valid = Kept-IsValid k v; extends = Kept-Extends k }

-- Along any sequence of operations and injected failures, a valid transcript stays valid and loses
-- nothing: no message, no place in an order, no committed operation, no id of an attempt.
pub Steps-Grows : {s s' : MemoryTranscript} → IsValid s → Steps s s' → Grows s s'
Steps-Grows v start = Grows-refl v
Steps-Grows v (then_perform {s'} steps c) =
    let g = Steps-Grows v steps in Grows-trans g (Ends-Grows g.valid (perform-IsSafe c s' g.valid))
Steps-Grows v (then_inject {s'} steps op) =
    let g = Steps-Grows v steps in Grows-trans g (inject-Grows op s' g.valid)

pub empty-IsValid : (tools : List Text) → IsValid (empty tools)
unfolding empty get count elem
empty-IsValid tools = record {
  counted = λ i k. absurd (false≢true k);
  named = λ i m e. cc;
  ordered = λ t i h. absurd (omega (arith, h));
  once = λ t i. omega arith;
  texts = λ k i e. cc;
  receipts = λ op c e. cc;
}
