-- ===== src/Lifecycle/Scopes.antt =====
-- `RunScope.aclose` of src/agent_runtime/lifecycle.py: the resources of a run are released, whatever
-- goes wrong with one of them. How closing each ends is given.
use coresmos.Prelude.{
  ℕ, suc, ltb, ◌==◌, ◌||◌, ◌&&◌, not, arith, ◌≡◌, refl, ap, ◌∙◌, Bool, true, false, if◌then◌else◌,
  Option, none, some, List, [], ◌∷◌, ◌++◌,
}
use coresmos.Errors.{Error, cleanup_timeout_error}

-- How a registered stream answers a close within the timeout; some have no `aclose`.
pub data Closing : Type 0 where
  no_closer closes times_out : Closing
  fails : Error → Closing

-- A stream, by its number.
pub record Resource : Type 0 where
  pub number : ℕ
  pub closing : Closing

-- How a task stands when the scope closes: done, or ended by its cancellation, or still running after the
-- timeout.
pub data TaskEnd : Type 0 where
  done cancelled running : TaskEnd

-- What `aclose` raises.
pub data CleanupError : Type 0 where
  timeout_error : ℕ → CleanupError
  release_errors : List Error → CleanupError

pub record RunScope : Type 0 where
  pub streams : List Resource
  pub tasks : List TaskEnd
  pub close_started : Bool
  pub cleanup_error : Option CleanupError
  -- The streams whose `aclose` was called, in order.
  pub closed_streams : List ℕ

-- What the loop over the streams collects.
pub record Released : Type 0 where
  pub closed_streams : List ℕ
  pub timed_out : Bool
  pub errors : List Error

abbrev release : ℕ → Closing → Released → Released
release n no_closer rest = rest
release n closes rest = record rest { closed_streams = n ∷ rest.closed_streams }
release n times_out rest = record {
  closed_streams = n ∷ rest.closed_streams;
  timed_out = true;
  errors = cleanup_timeout_error ∷ rest.errors;
}
release n (fails e) rest = record rest {
  closed_streams = n ∷ rest.closed_streams;
  errors = e ∷ rest.errors;
}

unfoldable pub release_streams : List Resource → Released
release_streams [] = record { closed_streams = []; timed_out = false; errors = [] }
release_streams (r ∷ rs) = release r.number r.closing (release_streams rs)

unfoldable pub still_running : List TaskEnd → ℕ
still_running [] = 0
still_running (running ∷ ts) = suc (still_running ts)
still_running (_ ∷ ts) = still_running ts

-- A timeout outranks the errors of the streams.
unfoldable pub cleanup_outcome : Released → ℕ → Option CleanupError
cleanup_outcome r left =
    if r.timed_out || ltb 0 left
    then some (timeout_error left)
    else elim r.errors [ [] ↦ none | e ∷ es ↦ some (release_errors (e ∷ es)) ]

-- `aclose`: what it raises, and the scope. A second call waits for the first and raises the same.
unfoldable pub close_scope : RunScope → Option CleanupError × RunScope
unfolding release_streams still_running cleanup_outcome
close_scope s =
    let released = release_streams s.streams in
    let outcome = cleanup_outcome released (still_running s.tasks) in
    if s.close_started then (s.cleanup_error, s) else (
      outcome,
      record s {
        close_started = true;
        cleanup_error = outcome;
        closed_streams = s.closed_streams ++ released.closed_streams;
      },
    )

-- The streams that have an `aclose`.
abbrev with_closer : ℕ → Closing → List ℕ → List ℕ
with_closer n no_closer rest = rest
with_closer n _ rest = n ∷ rest

unfoldable pub closable : List Resource → List ℕ
closable [] = []
closable (r ∷ rs) = with_closer r.number r.closing (closable rs)

-- Nothing goes wrong with a stream.
abbrev is_fine : Closing → Bool
is_fine no_closer = true
is_fine closes = true
is_fine _ = false

unfoldable pub all_fine : List Resource → Bool
all_fine [] = true
all_fine (r ∷ rs) = is_fine r.closing && all_fine rs

release-closed :
    (n : ℕ) (c : Closing) (rest : Released)
    → (release n c rest).closed_streams ≡ with_closer n c rest.closed_streams
release-closed n no_closer rest = refl
release-closed n closes rest = refl
release-closed n times_out rest = refl
release-closed n (fails e) rest = refl

release_streams-closable : (rs : List Resource) → (release_streams rs).closed_streams ≡ closable rs
unfolding release_streams closable
release_streams-closable [] = refl
release_streams-closable (r ∷ rs) =
    release-closed r.number r.closing (release_streams rs)
    ∙ ap (with_closer r.number r.closing) (release_streams-closable rs)

abbrev no_error : List Error → Bool
no_error [] = true
no_error (e ∷ es) = false

-- No timeout and no error.
abbrev is_clean : Released → Bool
is_clean r = not r.timed_out && no_error r.errors

release-fine :
    (n : ℕ) (c : Closing) (rest : Released)
    → is_clean (release n c rest) ≡ (is_fine c && is_clean rest)
release-fine n no_closer rest = refl
release-fine n closes rest = refl
release-fine n times_out rest = refl
release-fine n (fails e) rest = ground arith

release_streams-all_fine : (rs : List Resource) → is_clean (release_streams rs) ≡ all_fine rs
unfolding release_streams all_fine
release_streams-all_fine [] = refl
release_streams-all_fine (r ∷ rs) =
    release-fine r.number r.closing (release_streams rs)
    ∙ ap (λ b. is_fine r.closing && b) (release_streams-all_fine rs)

abbrev is_none : Option CleanupError → Bool
is_none none = true
is_none (some e) = false

cleanup_outcome-clean :
    (r : Released) (left : ℕ) → is_none (cleanup_outcome r left) ≡ (is_clean r && left == 0)
unfolding cleanup_outcome
cleanup_outcome-clean r left = by_cases r.timed_out r.errors
  where
    by_cases :
        (late : Bool) (errors : List Error)
        → is_none (
            cleanup_outcome
              (record { closed_streams = r.closed_streams; timed_out = late; errors = errors })
              left)
          ≡ ((not late && no_error errors) && left == 0)
    by_cases true errors = refl
    by_cases false [] = ground arith
    by_cases false (e ∷ es) = ground arith

-- A scope whose close closed every stream that can be closed, once and in order; that raised nothing
-- exactly if every close went well and no task is left; and whose second close raises the same and
-- changes nothing.
pub record IsReleased (s : RunScope) : Type 0 where
  pub each_once : (close_scope s).1.closed_streams ≡ s.closed_streams ++ closable s.streams
  pub raises_nothing :
      is_none (close_scope s).0 ≡ (all_fine s.streams && still_running s.tasks == 0)
  pub again : close_scope (close_scope s).1 ≡ close_scope s

-- The first close of a scope closes every stream that can be closed, once and in order, whatever goes
-- wrong with the others. It raises nothing exactly if every close went well and no task is left, and
-- a second close raises the same and changes nothing.
pub close_scope-IsReleased : (s : RunScope) → s.close_started ≡ false → IsReleased s
unfolding close_scope
close_scope-IsReleased s fresh = record {
  each_once = rw (fresh, release_streams-closable s.streams) refl;
  raises_nothing = rw fresh (
      cleanup_outcome-clean (release_streams s.streams) (still_running s.tasks)
      ∙ ap (λ b. b && still_running s.tasks == 0) (release_streams-all_fine s.streams));
  again = rw fresh refl;
}
