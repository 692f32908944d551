-- ===== src/Recording/Finalized.antt =====
-- What the end of a run leaves in the transcript.
use coresmos.Prelude.{◌≡◌, Bool, true, ◌&&◌, none, some, Text, codes, ◌++◌, [], put, Text-discrete}
use coresmos.Errors.{
  ok, require, require-returns, ◌>>=◌, >>=-returns, >>-returns, idempotency_error,
}
use coresmos.Contracts.Enums.{LogicalOpKind, LogicalOpKind-discrete, RunStatus}
use coresmos.Recording.Payloads.{Payload, payload_eq, same, RunStatus-discrete}
use coresmos.Recording.Store.{
  MemoryTranscript, CommittedOp, OpCall, find_op, replay, same_content, committed,
}
use coresmos.Recording.Runs.{finalize_run, status_text}
use coresmos.Recording.Facts.{Kept, Ends, returned}
use coresmos.Recording.Steps.{Ends-with_op}
use coresmos.Recording.Texts.{find-store_op}
use coresmos.Recording.Retries.{same_self}

-- The id under which a run's end is committed.
abbrev pub finalize_op : Text → RunStatus → Text
finalize_op run_id status = (run_id ++ codes ":finalize:") ++ status_text status

-- The transcript holds the commit of a run's end with a status.
pub record IsFinalized (run_id : Text) (status : RunStatus) (s : MemoryTranscript) : Type 0 where
  pub op : CommittedOp
  pub found : find_op s (finalize_op run_id status) ≡ some op
  pub same_status : payload_eq op.payload (Payload.run_final status) ≡ true

abbrev end_call : Text → RunStatus → OpCall
end_call run_id status = record {
  logical_op_id = finalize_op run_id status;
  kind = LogicalOpKind.run_final;
  payload = Payload.run_final status;
  run_id = run_id;
  step_no = none;
  record_target = none;
  previous_receipt = none;
}

and_right : (a b : Bool) → (a && b) ≡ true → b ≡ true
and_right true b h = h
and_right Bool.false b h = cc

replayed-payload :
    (c : CommittedOp) (call : OpCall) (b : Unit {0})
    → (replay c call >>= λ _. ok tt) ≡ ok b
    → payload_eq c.payload call.payload ≡ true
unfolding replay same_content
replayed-payload c call b h =
    let (c', e, _) = >>=-returns (replay c call) (λ _. ok tt) h in
    let (p, _) = >>-returns (require (same_content c call) idempotency_error) _ c' e in
    and_right (same LogicalOpKind-discrete c.kind call.kind) _
      (require-returns (same_content c call) idempotency_error p)

-- A commit of a run's end that returned, the first or a repeated one, stands in the transcript.
pub finalize_run-IsFinalized :
    (run_id : Text) (status : RunStatus) (s : MemoryTranscript)
    → Ends (Kept s) (λ _ s'. IsFinalized run_id status s') (finalize_run run_id status s)
unfolding finalize_run
finalize_run-IsFinalized run_id status s =
    let call = end_call run_id status in
    Ends-with_op s call (λ _. ok tt) _
      (λ clear c found b e. record {
        op = c;
        found = found;
        same_status = replayed-payload c call b e;
      })
      (λ clear fresh. returned tt _ (record {
        op = committed call none [] none;
        found =
            find-store_op (record s { run_status = put Text-discrete run_id status s.run_status })
              (finalize_op run_id status) (committed call none [] none);
        same_status = unfold committed payload_eq in same_self RunStatus-discrete status;
      }))
