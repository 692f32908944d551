-- ===== src/Tests/Lifecycle.antt =====
-- The theorems on src/agent_runtime/lifecycle.py at concrete waits, streams and scopes.
use coresmos.Prelude.{
  ℕ, ◌≡◌, refl, ◌==◌, Bool, Option, List, true, false, none, some, [], ◌∷◌, ◌++◌, map,
}
use coresmos.Errors.{raise, runtime_error, cancelled_run_error, completion_protocol_error}
use coresmos.Contracts.Enums.{StopReason}
use coresmos.Loop.Streams.{consume_strict, has_none}
use coresmos.Lifecycle.Waits.{
  consume_strict-interrupted, iterate_cancellable, delivered, interrupted, Wait,
}
use coresmos.Lifecycle.Streams.{
  IteratorClose, CallbackStream, Use, use_all, ClosesOnce, use_all-ClosesOnce,
}
use coresmos.Lifecycle.Scopes.{RunScope, Closing, TaskEnd, IsReleased, close_scope-IsReleased}

-- An event is a number, and 0 is the completion.
abbrev is_last : ℕ → Bool
is_last n = n == 0

abbrev pressed : Option StopReason
pressed = some StopReason.user_stop

abbrev unread : List (Wait ℕ)
unread = delivered 8 ∷ []

abbrev two_events : List ℕ
two_events = 5 ∷ 6 ∷ []

two_events_none : has_none is_last two_events ≡ true
unfolding has_none
two_events_none = refl

consume_strict-interrupted_example :
    (consume_strict is_last
        (iterate_cancellable (map delivered two_events ++ interrupted pressed ∷ unread))
      ≡ raise (cancelled_run_error StopReason.user_stop))
    × (consume_strict is_last (
          iterate_cancellable
            (map delivered (two_events ++ 0 ∷ []) ++ interrupted pressed ∷ unread))
        ≡ raise completion_protocol_error)
consume_strict-interrupted_example =
    consume_strict-interrupted is_last two_events 0 pressed unread two_events_none refl

-- A stream of one event, whose iterator refuses to close.
abbrev stubborn : CallbackStream ℕ
stubborn = record {
  items = 5 ∷ [];
  failure = none;
  closing = IteratorClose.fails runtime_error;
  closed = false;
  close_count = 0;
  closes = 0;
  callbacks = 0;
}

abbrev uses : List Use
uses = Use.reads ∷ Use.reads ∷ Use.closes_it ∷ Use.reads ∷ []

use_all-ClosesOnce_example : ClosesOnce (use_all uses stubborn)
use_all-ClosesOnce_example =
    use_all-ClosesOnce uses stubborn (ClosesOnce.still_open refl refl refl refl)

-- One stream closes, one fails, one hangs, one has no close, and a task goes on.
abbrev busy_scope : RunScope
busy_scope = record {
  streams =
      record { number = 1; closing = Closing.closes }
      ∷ record { number = 2; closing = Closing.fails runtime_error }
      ∷ record { number = 3; closing = Closing.times_out }
      ∷ record { number = 4; closing = Closing.no_closer }
      ∷ [];
  tasks = TaskEnd.done ∷ TaskEnd.running ∷ [];
  close_started = false;
  cleanup_error = none;
  closed_streams = [];
}

close_scope-IsReleased_example : IsReleased busy_scope
close_scope-IsReleased_example = close_scope-IsReleased busy_scope refl
