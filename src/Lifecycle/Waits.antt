-- ===== src/Lifecycle/Waits.antt =====
-- The waits of src/agent_runtime/lifecycle.py. What is done when a wait ends is given: asyncio decides it.
use coresmos.Prelude.{
  ◌≡◌, refl, Bool, true, if◌then◌else◌, leb, ℕ, Option, none, some, List, [], ◌∷◌, ◌++◌, map, inl,
  inr, Bool-cases,
}
use mathlib.Core.Bool.{false≢true}
use coresmos.Errors.{Result, ok, raise, ◌>>◌, cancelled_run_error, completion_protocol_error}
use coresmos.Contracts.Enums.{StopReason}
use coresmos.Loop.Allocation.{raise_if_stopped}
use coresmos.Loop.Streams.{
  ManagedEventStream, consume_strict, iterate_strict, strict_from, finish, ending_error,
  is_cancelled, has_none,
}

-- What was done when a wait ended: the work, with its outcome, and the wait for a stop. Neither is, when
-- the timeout of the wait passed. For work that was itself cancelled the reason is the first of the run.
pub record Wait (A : Type 0) : Type 0 where
  pub work : Option (Result A)
  pub stop : Option StopReason

abbrev stop_or : StopReason → Option StopReason → StopReason
stop_or default none = default
stop_or default (some reason) = reason

-- `wait_next`, of a stream that has not ended: the event comes before a stop.
unfoldable pub wait_next : {A : Type 0} → Wait A → Result A
wait_next w = elim w.work [
  | some outcome ↦ outcome
  | none ↦ raise (cancelled_run_error (stop_or StopReason.idle_timeout w.stop))
]

-- `wait_cancellable`, which looks for a stop first.
unfoldable pub wait_cancellable : {A : Type 0} → Option StopReason → Wait A → Result A
wait_cancellable before w = raise_if_stopped before >> (elim w.work [
  | some outcome ↦ outcome
  | none ↦ raise (cancelled_run_error (stop_or StopReason.host_cancel w.stop))
])

-- `sleep_cancellable`: without a delay it only looks for a stop.
unfoldable pub sleep_cancellable : ℕ → Option StopReason → Option StopReason → Result (Unit {0})
sleep_cancellable delay before stop =
    if leb delay 0 then raise_if_stopped before else raise_if_stopped stop

-- `iterate_cancellable`, of the waits up to the end of the stream, which is then closed without an
-- exception.
unfoldable pub iterate_cancellable : {A : Type 0} → List (Wait A) → ManagedEventStream A
unfolding wait_next
iterate_cancellable [] = record { items = []; failure = none }
iterate_cancellable (w ∷ ws) =
    let rest = iterate_cancellable ws in
    elim (wait_next w) [
      | raise e ↦ record { items = []; failure = some e }
      | ok a ↦ record { items = a ∷ rest.items; failure = rest.failure }
    ]

-- A wait that brought an event.
abbrev pub delivered : {A : Type 0} → A → Wait A
delivered a = record { work = some (ok a); stop = none }

abbrev pub interrupted : {A : Type 0} → Option StopReason → Wait A
interrupted stop = record { work = none; stop = stop }

module _ {A : Type 0} where
  iterate-delivered :
      (before : List A) (stop : Option StopReason) (more : List (Wait A))
      → iterate_cancellable (map delivered before ++ interrupted stop ∷ more) ≡ record {
        items = before;
        failure = some (cancelled_run_error (stop_or StopReason.idle_timeout stop));
      }
  unfolding iterate_cancellable
  iterate-delivered [] stop more = refl
  iterate-delivered (a ∷ before) stop more = rw (iterate-delivered before stop more) refl

  module _ (is_completion : A → Bool) where
    strict_interrupted :
        (last : Option A) (before : List A) (reason : StopReason)
        → has_none is_completion before ≡ true
        → strict_from is_completion none last before (some (cancelled_run_error reason))
          ≡ (before, raise (cancelled_run_error reason))
    unfolding strict_from finish ending_error is_cancelled has_none
    strict_interrupted last [] reason h = refl
    strict_interrupted last (a ∷ before) reason h = elim (Bool-cases (is_completion a)) [
      | inl e ↦ absurd (false≢true (rw e at h))
      | inr e ↦ rw (e, strict_interrupted (some a) before reason (rw e at h)) refl
    ]

    strict_interrupted_after :
        (last : Option A) (before : List A) (c : A) (reason : StopReason)
        → has_none is_completion before ≡ true
        → is_completion c ≡ true
        → (strict_from is_completion none last
            (before ++ c ∷ [])
            (some (cancelled_run_error reason))).1
          ≡ raise completion_protocol_error
    unfolding strict_from finish ending_error is_cancelled has_none
    strict_interrupted_after last [] c reason h e = rw e refl
    strict_interrupted_after last (a ∷ before) c reason h e = elim (Bool-cases (is_completion a)) [
      | inl i ↦ absurd (false≢true (rw (i, has_none) at h))
      | inr i ↦
          rw (i, strict_from) (strict_interrupted_after (some a) before c reason (rw i at h) e)
    ]

    -- The strict reading of a stream that a stop or a silence interrupts: before the completion came,
    -- the run is cancelled for that reason; behind it, before the stream ended, it is a protocol
    -- error.
    pub consume_strict-interrupted :
        (before : List A) (c : A) (stop : Option StopReason) (more : List (Wait A))
        → has_none is_completion before ≡ true
        → is_completion c ≡ true
        → (consume_strict is_completion
              (iterate_cancellable (map delivered before ++ interrupted stop ∷ more))
            ≡ raise (cancelled_run_error (stop_or StopReason.idle_timeout stop)))
          × (consume_strict is_completion
                (iterate_cancellable (map delivered (before ++ c ∷ []) ++ interrupted stop ∷ more))
              ≡ raise completion_protocol_error)
    unfolding consume_strict iterate_strict
    consume_strict-interrupted before c stop more h e =
        let reason = stop_or StopReason.idle_timeout stop in
        (
          rw (iterate-delivered before stop more, strict_interrupted none before reason h) refl,
          rw
              (
                iterate-delivered (before ++ c ∷ []) stop more,
                strict_interrupted_after none before c reason h e,
              )
              refl,
        )
