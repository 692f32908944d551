-- ===== src/Context/Provider.antt =====
-- Parts of src/agent_runtime/context/manager.py: the reads that a step starts from, and the stored
-- projections of its prompt. What is read from the ports is an argument.
use coresmos.Prelude.{
  ℕ, zero, suc, ◌+◌, ◌≤◌, ◌<◌, ◌≡◌, ◌⊎◌, refl, ite, Bool, true, false, ◌&&◌, if◌then◌else◌, Option,
  none, some, List, [], ◌∷◌, Text, Text-discrete, Dict, get, put, get-put_self, arith, inl, inr,
  Bool-cases, if_pos,
}
use coresmos.Errors.{Result, ok, raise, version_conflict_error}
use coresmos.Json.{Fields}
use coresmos.Contracts.Messages.{Message}
use coresmos.Contracts.Receipts.{RecordTarget}
use coresmos.Recording.Payloads.{same}
use coresmos.Recording.Runs.{TranscriptSnapshot}
use coresmos.Capabilities.Sessions.{CapabilitySnapshot}

pub record ApplicationSnapshot : Type 0 where
  pub version : Text
  pub record_target : RecordTarget
  pub payload : Fields

-- What one round of `_read_consistent` reads, in its order; the view's target is looked at first and
-- last.
pub record Reading : Type 0 where
  pub target : RecordTarget
  pub history : TranscriptSnapshot
  pub capabilities : CapabilitySnapshot
  pub application : ApplicationSnapshot
  pub history_again : TranscriptSnapshot
  pub capabilities_again : CapabilitySnapshot
  pub application_again : ApplicationSnapshot
  pub target_again : RecordTarget

unfoldable pub is_consistent : Reading → Bool
is_consistent r =
    same Text-discrete r.history.version r.history_again.version
    && same Text-discrete r.capabilities.version r.capabilities_again.version
    && same Text-discrete r.application.version r.application_again.version
    && same Text-discrete r.target_again.value r.target.value

abbrev pub Snapshots : Type 0
Snapshots = TranscriptSnapshot × CapabilitySnapshot × ApplicationSnapshot

abbrev pub snapshots_of : Reading → Snapshots
snapshots_of r = (r.history, r.capabilities, r.application)

equal_or_less : (i n : ℕ) → i ≤ n → (i ≡ n) ⊎ (i + 1 ≤ n)
equal_or_less i n h = omega arith

module _ (read : ℕ → Reading) where
  -- The rounds that are left, and the number of the next one.
  unfoldable pub read_from : ℕ → ℕ → Result Snapshots
  read_from zero i = raise version_conflict_error
  read_from (suc k) i =
      let rest = read_from k (i + 1) in
      if is_consistent (read i) then ok (snapshots_of (read i)) else rest

  -- `_read_consistent`
  unfoldable pub read_consistent : Result Snapshots
  unfolding read_from
  read_consistent = read_from 3 0

  -- The first consistent round of `k` from `i` on, or none.
  pub data Read (k i : ℕ) : Result Snapshots → Type 0 where
    first :
        (j : ℕ)
        → i ≤ j
        → j < i + k
        → is_consistent (read j) ≡ true
        → ((n : ℕ) → i ≤ n → n < j → is_consistent (read n) ≡ false)
        → Read k i (ok (snapshots_of (read j)))
    conflict :
        ((n : ℕ) → i ≤ n → n < i + k → is_consistent (read n) ≡ false)
        → Read k i (raise version_conflict_error)

  one_more :
      (k i : ℕ) (result : Result Snapshots)
      → is_consistent (read i) ≡ false
      → Read k (i + 1) result
      → Read (suc k) i result
  one_more k i result off (first j low high yes_j before) =
      first j (omega arith) (omega arith) yes_j (λ n le lt. elim (equal_or_less i n le) [
        | inl e ↦ rw (← e) off
        | inr later ↦ before n later lt
      ])
  one_more k i result off (conflict none_of) = conflict (λ n le lt. elim (equal_or_less i n le) [
    | inl e ↦ rw (← e) off
    | inr later ↦ none_of n later (omega arith)
  ])

  read_from-Read : (k i : ℕ) → Read k i (read_from k i)
  unfolding read_from
  read_from-Read zero i = conflict (λ n le lt. absurd (omega arith))
  read_from-Read (suc k) i = elim (Bool-cases (is_consistent (read i))) [
    | inl e ↦ rw e (first i (omega arith) (omega arith) e (λ n le lt. absurd (omega arith)))
    | inr e ↦ rw e (one_more k i _ e (read_from-Read k (i + 1)))
  ]

  -- A step starts from the first of three rounds whose versions and target read the same twice; if
  -- there is none, it is refused with VersionConflictError.
  pub read_consistent-Read : Read 3 0 read_consistent
  unfolding read_consistent
  read_consistent-Read = read_from-Read 3 0

pub record SummaryProjection : Type 0 where
  pub key : Text
  pub messages : List Message

-- `MemorySummaryProjection`
abbrev pub Projections : Type 0
Projections = Dict Text SummaryProjection

unfoldable pub get_projection : RecordTarget → Projections → Option SummaryProjection
get_projection target d = get Text-discrete target.value d

unfoldable pub put_projection : RecordTarget → SummaryProjection → Projections → Projections
put_projection target p d = put Text-discrete target.value p d

-- `self._data.pop(target, None)`
unfoldable pub invalidate : RecordTarget → Projections → Projections
invalidate target [] = []
invalidate target ((k, p) ∷ d) = ite (Text-discrete k target.value) d ((k, p) ∷ invalidate target d)

abbrev pub stored_messages : Option SummaryProjection → Text → Option (List Message)
stored_messages none key = none
stored_messages (some p) key = if same Text-discrete p.key key then some p.messages else none

module _ (target : RecordTarget) (compress : List Message → Result (List Message × Bool)) where
  abbrev after_compress :
      Text → Projections → Result (List Message × Bool) → Result (List Message × Bool) × Projections
  after_compress key d (raise e) = (raise e, d)
  after_compress key d (ok (messages, true)) =
      (ok (messages, true), put_projection target (record { key = key; messages = messages }) d)
  after_compress key d (ok (messages, false)) = (ok (messages, false), d)

  -- `_project`, with the compressor at this step's budget.
  unfoldable pub project :
      List Message → Text → Projections → Result (List Message × Bool) × Projections
  unfolding get_projection put_projection
  project prompt key d = elim (stored_messages (get_projection target d) key) [
    | some messages ↦ (ok (messages, true), d)
    | none ↦ after_compress key d (compress prompt)
  ]

  project-compressed :
      (prompt messages : List Message) (key : Text) (d : Projections)
      → stored_messages (get_projection target d) key ≡ none
      → compress prompt ≡ ok (messages, true)
      → project prompt key d
        ≡ (ok (messages, true), put_projection target (record { key = key; messages = messages }) d)
  unfolding project
  project-compressed prompt messages key d stale e = rw (project, stale, e)

  project-served :
      (prompt messages : List Message) (key : Text) (d : Projections)
      → stored_messages (get_projection target d) key ≡ some messages
      → project prompt key d ≡ (ok (messages, true), d)
  unfolding project
  project-served prompt messages key d fresh = rw (project, fresh)

get-put_projection :
    (target : RecordTarget) (p : SummaryProjection) (d : Projections)
    → get_projection target (put_projection target p d) ≡ some p
unfolding get_projection put_projection
get-put_projection target p d = get-put_self Text-discrete target.value p d

-- A prompt that was compressed, because no projection for its key was stored, is stored: the next
-- projection for the target under the same key gives the same messages and stores nothing, whatever
-- the prompt and the compressor are then.
pub project-again :
    (target : RecordTarget) (compress later : List Message → Result (List Message × Bool))
    (prompt next messages : List Message) (key : Text) (d : Projections)
    → stored_messages (get_projection target d) key ≡ none
    → compress prompt ≡ ok (messages, true)
    → project target later next key (project target compress prompt key d).1
      ≡ (ok (messages, true), (project target compress prompt key d).1)
project-again target compress later prompt next messages key d stale e =
    let p : SummaryProjection = record { key = key; messages = messages } in
    rw (project-compressed target compress prompt messages key d stale e) (
      project-served target later next messages key (put_projection target p d)
        (rw (get-put_projection target p d, if_pos (Text-discrete key key) refl true false) refl))
