-- ===== src/Control.antt =====
-- `RunControl` of src/agent_runtime/contracts.py: the reasons to stop a run, and its deadline. The
-- monotonic clock is a number, which every operation that reads it takes.
use coresmos.Prelude.{
  ℕ, ◌+◌, ◌-◌, ◌≤◌, ◌≡◌, ◌⊎◌, leb, if◌then◌else◌, Bool, true, false, Option, none, some, List, [],
  ◌∷◌, arith, inl, inr, Option-cases,
}
use mathlib.Core.Bool.{false≢true}
use coresmos.Contracts.Enums.{StopReason}

pub record RunControl : Type 0 where
  pub deadline : Option ℕ
  -- Which of `_events` are set.
  pub user_stop : Bool
  pub host_cancel : Bool
  pub consumer_closed : Bool
  pub idle_timeout : Bool
  pub first : Option StopReason
  -- Whether `_any` is set.
  pub any : Bool

unfoldable pub new_control : Option ℕ → RunControl
new_control deadline = record {
  deadline = deadline;
  user_stop = false;
  host_cancel = false;
  consumer_closed = false;
  idle_timeout = false;
  first = none;
  any = false;
}

-- `if self._first is None: ...`
unfoldable pub set_first : StopReason → RunControl → RunControl
set_first reason c = elim c.first [
  | none ↦ record c { first = some reason; any = true }
  | some r ↦ c
]

unfoldable pub request_user_stop : RunControl → RunControl
unfolding set_first
request_user_stop c = set_first StopReason.user_stop (record c { user_stop = true })

unfoldable pub request_host_cancel : RunControl → RunControl
unfolding set_first
request_host_cancel c = set_first StopReason.host_cancel (record c { host_cancel = true })

unfoldable pub notify_consumer_closed : RunControl → RunControl
unfolding set_first
notify_consumer_closed c =
    set_first StopReason.consumer_closed (record c { consumer_closed = true })

-- An armed deadline is not moved.
unfoldable pub arm_deadline : ℕ → ℕ → RunControl → RunControl
arm_deadline now seconds c = elim c.deadline [
  | none ↦ record c { deadline = some (now + seconds) }
  | some d ↦ c
]

abbrev past : Option ℕ → ℕ → Bool
past none now = false
past (some d) now = leb d now

unfoldable pub reason_set : ℕ → StopReason → RunControl → Bool
reason_set now StopReason.deadline c = past c.deadline now
reason_set now StopReason.user_stop c = c.user_stop
reason_set now StopReason.host_cancel c = c.host_cancel
reason_set now StopReason.consumer_closed c = c.consumer_closed
reason_set now StopReason.idle_timeout c = c.idle_timeout

unfoldable pub first_reason : ℕ → RunControl → Option StopReason
unfolding reason_set
first_reason now c = elim c.first [
  | some r ↦ some r
  | none ↦ if reason_set now StopReason.deadline c then some StopReason.deadline else none
]

unfoldable pub is_set : ℕ → RunControl → Bool
unfolding first_reason
is_set now c = elim (first_reason now c) [ none ↦ false | some r ↦ true ]

-- `max(0, deadline - now)`
unfoldable pub remaining_seconds : ℕ → RunControl → Option ℕ
remaining_seconds now c = elim c.deadline [ none ↦ none | some d ↦ some (d - now) ]

pub data Request : Type 0 where
  user_stop host_cancel consumer_closed : Request
  arm : ℕ → ℕ → Request

unfoldable pub perform : Request → RunControl → RunControl
unfolding request_user_stop request_host_cancel notify_consumer_closed arm_deadline
perform user_stop c = request_user_stop c
perform host_cancel c = request_host_cancel c
perform consumer_closed c = notify_consumer_closed c
perform (arm now seconds) c = arm_deadline now seconds c

unfoldable pub perform_all : List Request → RunControl → RunControl
unfolding perform
perform_all [] c = c
perform_all (q ∷ qs) c = perform_all qs (perform q c)

-- What no request takes back.
pub record Keeps (c c' : RunControl) : Type 0 where
  pub first : (r : StopReason) → c.first ≡ some r → c'.first ≡ some r
  pub deadline : (d : ℕ) → c.deadline ≡ some d → c'.deadline ≡ some d

set_first-Keeps : (reason : StopReason) (c : RunControl) → Keeps c (set_first reason c)
unfolding set_first
set_first-Keeps reason c = record { first = λ r e. ground arith; deadline = λ d e. ground arith }

perform-Keeps : (q : Request) (c : RunControl) → Keeps c (perform q c)
unfolding perform request_user_stop request_host_cancel notify_consumer_closed arm_deadline
perform-Keeps user_stop c = record {
  first = (set_first-Keeps StopReason.user_stop (record c { user_stop = true })).first;
  deadline = (set_first-Keeps StopReason.user_stop (record c { user_stop = true })).deadline;
}
perform-Keeps host_cancel c = record {
  first = (set_first-Keeps StopReason.host_cancel (record c { host_cancel = true })).first;
  deadline = (set_first-Keeps StopReason.host_cancel (record c { host_cancel = true })).deadline;
}
perform-Keeps consumer_closed c = record {
  first = (set_first-Keeps StopReason.consumer_closed (record c { consumer_closed = true })).first;
  deadline =
      (set_first-Keeps StopReason.consumer_closed (record c { consumer_closed = true })).deadline;
}
perform-Keeps (arm now seconds) c = record {
  first = λ r e. ground arith;
  deadline = λ d e. ground arith;
}

perform_all-Keeps : (qs : List Request) (c : RunControl) → Keeps c (perform_all qs c)
unfolding perform_all
perform_all-Keeps [] c = record { first = λ r e. e; deadline = λ d e. e }
perform_all-Keeps (q ∷ qs) c =
    let k = perform-Keeps q c in
    let l = perform_all-Keeps qs (perform q c) in
    record {
      first = λ r e. l.first r (k.first r e);
      deadline = λ d e. l.deadline d (k.deadline d e);
    }

is_set-cases :
    (now : ℕ) (c : RunControl)
    → is_set now c ≡ true
    → ((r : StopReason) × (c.first ≡ some r)) ⊎ ((d : ℕ) × (c.deadline ≡ some d) × (d ≤ now))
unfolding is_set first_reason reason_set
is_set-cases now c h = elim (Option-cases c.first) [
  | inr (r, e) ↦ inl (r, e)
  | inl e ↦ elim (Option-cases c.deadline) [
    | inr (d, f) ↦ inr (d, f, ground arith)
    | inl f ↦ absurd (false≢true (rw (e, f) at h))
  ]
]

-- A run that is to stop stays so, whatever is requested and however late it is; and the first reason
-- that was requested stays the one that is given.
pub is_set-stays :
    (now later : ℕ) (qs : List Request) (c : RunControl)
    → now ≤ later
    → is_set now c ≡ true
    → (is_set later (perform_all qs c) ≡ true)
      × ((r : StopReason) → c.first ≡ some r → first_reason later (perform_all qs c) ≡ some r)
unfolding is_set first_reason reason_set
is_set-stays now later qs c le h = (stays, given)
  where
    k : Keeps c (perform_all qs c)
    k = perform_all-Keeps qs c

    given : (r : StopReason) → c.first ≡ some r → first_reason later (perform_all qs c) ≡ some r
    given r e = ground (arith, k.first r e)

    stays : is_set later (perform_all qs c) ≡ true
    stays = elim (is_set-cases now c h) [
      | inl (r, e) ↦ ground (arith, k.first r e)
      | inr (d, e, past) ↦ ground (arith, k.deadline d e)
    ]
