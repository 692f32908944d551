-- ===== src/Recording/Snapshots.antt =====
-- What a reader of the transcript sees.
use coresmos.Prelude.{
  ◌≤◌, ◌<◌, ◌≡◌, refl, some, List, [], ◌∷◌, ◌++◌, map, Text, Text-discrete, codes, count, arith,
  inl, inr, decimal, Option-cases,
}
use mathlib.Core.Bool.{false≢true}
use coresmos.Errors.{ok}
use coresmos.Contracts.Messages.{Message}
use coresmos.Contracts.Receipts.{RecordTarget}
use coresmos.Recording.Store.{MemoryTranscript, find_message, ids_of}
use coresmos.Recording.Runs.{read_messages, snapshot, empty, TranscriptSnapshot}
use coresmos.Recording.Facts.{Known, IsValid}
use coresmos.Recording.Histories.{Steps, Steps-Grows, empty-IsValid}

-- The messages that are stored under some ids.
record Reads (s : MemoryTranscript) (ids : List Text) : Type 0 where
  messages : List Message
  reads : read_messages s ids ≡ ok messages
  own_ids : map (λ (m : Message). m.message_id) messages ≡ map some ids

read_messages-known :
    (s : MemoryTranscript) (i : Text) (ids : List Text) (m : Message) (ms : List Message)
    → find_message s i ≡ some m
    → read_messages s ids ≡ ok ms
    → read_messages s (i ∷ ids) ≡ ok (m ∷ ms)
unfolding read_messages
read_messages-known s i ids m ms e f = rw (e, f, read_messages)

read_known :
    (s : MemoryTranscript) (ids : List Text)
    → IsValid s
    → ((i : Text) → 0 < count Text-discrete i ids → Known s i)
    → Reads s ids
unfolding read_messages count
read_known s [] v known = record { messages = []; reads = refl; own_ids = refl }
read_known s (i ∷ ids) v known =
    let rest = read_known s ids v (λ j h. known j (ground (arith, h))) in
    elim (Option-cases (find_message s i)) [
      | inl e ↦ absurd (false≢true (rw e at (known i (ground arith))))
      | inr (m, e) ↦ record {
        messages = m ∷ rest.messages;
        reads = read_messages-known s i ids m rest.messages e rest.reads;
        own_ids = rw (v.named i m e, rest.own_ids) refl;
      }
    ]

-- The snapshot of a target: its messages with the ids of its order, each id once.
pub record IsSnapshot (s : MemoryTranscript) (target : RecordTarget) (snap : TranscriptSnapshot)
    : Type 0 where
  pub same_target : snap.record_target ≡ target
  pub own_ids : map (λ (m : Message). m.message_id) snap.messages ≡ map some (ids_of s target.value)
  pub once : (i : Text) → count Text-discrete i (ids_of s target.value) ≤ 1

-- From a new transcript, after any sequence of operations and injected failures, the snapshot of a
-- target is returned, never a missing key; it holds one message for each id of the target's order,
-- in that order, and no id twice.
pub snapshot-IsSnapshot :
    (tools : List Text) {s : MemoryTranscript} (target : RecordTarget)
    → Steps (empty tools) s
    → (snap : TranscriptSnapshot) × (snapshot target s ≡ ok snap) × IsSnapshot s target snap
unfolding snapshot
snapshot-IsSnapshot tools {s} target steps =
    let v = (Steps-Grows (empty-IsValid tools) steps).valid in
    let r = read_known s (ids_of s target.value) v (v.ordered target.value) in
    (
      record {
        version = (codes "v" ++ decimal s.version) ++ 58 ∷ target.value;
        record_target = target;
        messages = r.messages;
      },
      rw r.reads refl,
      record { same_target = refl; own_ids = r.own_ids; once = v.once target.value },
    )
