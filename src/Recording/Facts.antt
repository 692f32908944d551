-- ===== src/Recording/Facts.antt =====
-- What holds of a transcript between two operations, and what an operation may change.
use coresmos.Prelude.{
  ◌≤◌, ◌<◌, ◌≡◌, refl, sym, Bool, true, some, List, [], ◌++◌, Text, Text-discrete, count, get,
  last_number, arith,
}
use mathlib.Core.List.{append_assoc, append-nil}
use coresmos.Errors.{Error, Result, ok, raise}
use coresmos.Contracts.Enums.{LogicalOpKind}
use coresmos.Contracts.Messages.{Message}
use coresmos.Recording.Store.{
  MemoryTranscript, CommittedOp, TextKey, TextKey-discrete, Exec, proceed, then_do, find_message,
  find_op, ids_of,
}
use coresmos.Recording.Operations.{is_known}

abbrev pub Known : MemoryTranscript → Text → Type 0
Known s i = is_known (find_message s i) ≡ true

-- A committed operation holds the receipt that its replay returns.
abbrev pub has_receipt : LogicalOpKind → CommittedOp → Bool
has_receipt LogicalOpKind.input c = is_known c.message_receipt
has_receipt LogicalOpKind.text_delta c = is_known c.message_receipt
has_receipt LogicalOpKind.text_final c = is_known c.message_receipt
has_receipt LogicalOpKind.tool_calls c = is_known c.batch_receipt
has_receipt _ c = true

pub record IsValid (s : MemoryTranscript) : Type 0 where
  -- The counter is past the number of every id.
  pub counted : (i : Text) → Known s i → last_number 0 i ≤ s.seq
  -- A message carries the id that it is stored under.
  pub named : (i : Text) (m : Message) → find_message s i ≡ some m → m.message_id ≡ some i
  -- The order of a target holds ids of stored messages, each once.
  pub ordered : (t i : Text) → 0 < count Text-discrete i (ids_of s t) → Known s i
  pub once : (t i : Text) → count Text-discrete i (ids_of s t) ≤ 1
  -- The message of an attempt is stored.
  pub texts : (k : TextKey) (i : Text) → get TextKey-discrete k s.text_ids ≡ some i → Known s i
  pub receipts : (op : Text) (c : CommittedOp) → find_op s op ≡ some c → has_receipt c.kind c ≡ true

-- An operation that raised: no committed fact has changed.
pub record Kept (s s' : MemoryTranscript) : Type 0 where
  pub messages : s'.messages ≡ s.messages
  pub order : s'.order ≡ s.order
  pub ops : s'.ops ≡ s.ops
  pub text_ids : s'.text_ids ≡ s.text_ids
  pub version : s'.version ≡ s.version
  pub run_status : s'.run_status ≡ s.run_status
  pub seq : s.seq ≤ s'.seq

-- An operation that returned: facts are added, and none is taken back.
pub record Extends (s s' : MemoryTranscript) : Type 0 where
  pub messages : (i : Text) → Known s i → Known s' i
  pub order : (t : Text) → (more : List Text) × (ids_of s' t ≡ ids_of s t ++ more)
  pub ops : (op : Text) (c : CommittedOp) → find_op s op ≡ some c → find_op s' op ≡ some c
  pub text_ids :
      (k : TextKey) (i : Text)
      → get TextKey-discrete k s.text_ids ≡ some i
      → get TextKey-discrete k s'.text_ids ≡ some i
  pub seq : s.seq ≤ s'.seq
  pub version : s.version ≤ s'.version

pub Kept-refl : (s : MemoryTranscript) → Kept s s
Kept-refl s = record {
  messages = refl;
  order = refl;
  ops = refl;
  text_ids = refl;
  version = refl;
  run_status = refl;
  seq = omega arith;
}

pub Extends-trans : {a b c : MemoryTranscript} → Extends a b → Extends b c → Extends a c
Extends-trans {a} {b} {c} p q = record {
  messages = λ i k. q.messages i (p.messages i k);
  order = λ t.
      let (xs, e) = p.order t in
      let (ys, f) = q.order t in (xs ++ ys, rw (f, e) (append_assoc (ids_of a t) xs ys));
  ops = λ op o e. q.ops op o (p.ops op o e);
  text_ids = λ k i e. q.text_ids k i (p.text_ids k i e);
  seq = omega (arith, p.seq, q.seq);
  version = omega (arith, p.version, q.version);
}

pub Kept-Extends : {s s' : MemoryTranscript} → Kept s s' → Extends s s'
Kept-Extends {s} {s'} k = record {
  messages = λ i h. rw k.messages h;
  order = λ t. ([], rw k.order (sym (append-nil (ids_of s t))));
  ops = λ op c e. rw k.ops e;
  text_ids = λ key i e. rw k.text_ids e;
  seq = k.seq;
  version = omega (arith, k.version);
}

pub Kept-IsValid : {s s' : MemoryTranscript} → Kept s s' → IsValid s → IsValid s'
Kept-IsValid {s} {s'} k v = record {
  counted = λ i h. omega (arith, k.seq, v.counted i (rw k.messages at h));
  named = λ i m h. v.named i m (rw k.messages at h);
  ordered = λ t i h. rw k.messages (v.ordered t i (rw k.order at h));
  once = λ t i. rw k.order (v.once t i);
  texts = λ key i h. rw k.messages (v.texts key i (rw k.text_ids at h));
  receipts = λ op c h. v.receipts op c (rw k.ops at h);
}

-- What is claimed of the state after an exception, and of the value and the state after a return.
pub data Ends {A : Type 0} (E : MemoryTranscript → Type 0) (Q : A → MemoryTranscript → Type 0)
    : Result A × MemoryTranscript → Type 0 where
  raised : (e : Error) (s : MemoryTranscript) → E s → Ends E Q (raise e, s)
  returned : (a : A) (s : MemoryTranscript) → Q a s → Ends E Q (ok a, s)

module _ {A B : Type 0} {E : MemoryTranscript → Type 0} {Q : A → MemoryTranscript → Type 0}
    {R : B → MemoryTranscript → Type 0} where
  Ends-proceed :
      {r : Result A × MemoryTranscript} (f : A → Exec B)
      → Ends E Q r
      → ((a : A) (s' : MemoryTranscript) → Q a s' → Ends E R (f a s'))
      → Ends E R (proceed r f)
  Ends-proceed f (raised e s h) k = raised e s h
  Ends-proceed f (returned a s h) k = k a s h

  pub Ends-then_do :
      (m : Exec A) (f : A → Exec B) (s : MemoryTranscript)
      → Ends E Q (m s)
      → ((a : A) (s' : MemoryTranscript) → Q a s' → Ends E R (f a s'))
      → Ends E R (then_do m f s)
  Ends-then_do m f s h k = Ends-proceed f h k
