-- ===== src/Recording/Writing.antt =====
-- What each way of writing to the transcript does to its invariant.
use mathlib.Core.List.{append-nil}
use coresmos.Prelude.{
  ℕ, ◌+◌, ◌≤◌, ◌<◌, ◌≡◌, ◌≢◌, ◌⊎◌, refl, ◌∙◌, sym, false, some, List, [], ◌∷◌, ◌++◌, Text,
  Text-discrete, count, count-append, get-put, ite, if_pos, if_neg, last_number,
  last_number-decimal, arith, inl, inr, Bool-cases,
}
use coresmos.Contracts.Messages.{Message}
use coresmos.Contracts.Receipts.{RecordTarget}
use coresmos.Recording.Store.{MemoryTranscript, find_message, ids_of, id_text, append}
use coresmos.Recording.Operations.{is_known}
use coresmos.Recording.Facts.{
  Known, IsValid, Kept, Extends, Kept-refl, Kept-IsValid, Kept-Extends, Extends-trans,
}

-- A valid transcript that holds all facts of `s`.
pub record Grows (s s' : MemoryTranscript) : Type 0 where
  pub valid : IsValid s'
  pub extends : Extends s s'

pub Grows-refl : {s : MemoryTranscript} → IsValid s → Grows s s
Grows-refl {s} v = record { valid = v; extends = Kept-Extends (Kept-refl s) }

pub Grows-trans : {a b c : MemoryTranscript} → Grows a b → Grows b c → Grows a c
Grows-trans p q = record { valid = q.valid; extends = Extends-trans p.extends q.extends }

pub last_number-id_text :
    (prefix run_id : Text) (n : ℕ) → last_number 0 (id_text prefix run_id n) ≡ n
unfolding id_text
last_number-id_text prefix run_id n = last_number-decimal 0 n (prefix ++ 58 ∷ run_id)

abbrev pub bump : MemoryTranscript → MemoryTranscript
bump s = record s { seq = s.seq + 1 }

pub bump-Kept : (s : MemoryTranscript) → Kept s (bump s)
bump-Kept s = record {
  messages = refl;
  order = refl;
  ops = refl;
  text_ids = refl;
  version = refl;
  run_status = refl;
  seq = omega arith;
}

pub bump-Grows : {s : MemoryTranscript} → IsValid s → Grows s (bump s)
bump-Grows {s} v = record {
  valid = Kept-IsValid (bump-Kept s) v;
  extends = Kept-Extends (bump-Kept s);
}

-- An id that is numbered past the counter is new.
pub new_id :
    {s : MemoryTranscript} (i : Text)
    → IsValid s
    → s.seq < last_number 0 i
    → is_known (find_message s i) ≡ false
new_id {s} i v h = elim (Bool-cases (is_known (find_message s i))) [
  | inl k ↦ absurd (omega (arith, v.counted i k))
  | inr n ↦ n
]

single : (i : Text) → count Text-discrete i (i ∷ []) ≡ 1
unfolding count
single i = ground arith

single_ne : {i : Text} (j : Text) → j ≢ i → count Text-discrete j (i ∷ []) ≡ 0
unfolding count
single_ne {i} j n = ground arith

module _ (s : MemoryTranscript) (target : RecordTarget) (i : Text) (m : Message) where
  ids_of-append :
      (t : Text)
      → ids_of (append target i m s) t
        ≡ ite (Text-discrete target.value t) (ids_of s t ++ i ∷ []) (ids_of s t)
  unfolding append
  ids_of-append t =
      ground (arith, get-put Text-discrete target.value t (ids_of s target.value ++ i ∷ []) s.order)

  pub find-append :
      (j : Text)
      → find_message (append target i m s) j ≡ ite (Text-discrete i j) (some m) (find_message s j)
  unfolding append
  find-append j = get-put Text-discrete i j m s.messages

  grown-append : (j : Text) → Known s j → Known (append target i m s) j
  grown-append j k = ground (arith, find-append j)

  pub known-append : Known (append target i m s) i
  known-append = ground (arith, find-append i)

  pub old_or_new : (j : Text) → Known (append target i m s) j → (i ≡ j) ⊎ Known s j
  old_or_new j k = ground (arith, find-append j)

  order-append :
      (t : Text) → (more : List Text) × (ids_of (append target i m s) t ≡ ids_of s t ++ more)
  order-append t = elim (Text-discrete target.value t) [
    | yes p ↦ (
      i ∷ [],
      ids_of-append t ∙ if_pos (Text-discrete target.value t) p (ids_of s t ++ i ∷ []) (ids_of s t),
    )
    | no n ↦ (
      [],
      ids_of-append t
          ∙ (if_neg (Text-discrete target.value t) n (ids_of s t ++ i ∷ []) (ids_of s t)
              ∙ sym (append-nil (ids_of s t))),
    )
  ]

  count-ids-le :
      (t j : Text)
      → count Text-discrete j (ids_of (append target i m s) t)
        ≤ count Text-discrete j (ids_of s t) + count Text-discrete j (i ∷ [])
  count-ids-le t j =
      ground (arith, ids_of-append t, count-append Text-discrete j (ids_of s t) (i ∷ []))

  append-Extends : Extends s (append target i m s)
  append-Extends = record {
    messages = grown-append;
    order = order-append;
    ops = λ op c e. unfold append in e;
    text_ids = λ k j e. unfold append in e;
    seq = unfold append in omega arith;
    version = unfold append in omega arith;
  }

  module _ (v : IsValid s) (small : last_number 0 i ≤ s.seq)
      (new : is_known (find_message s i) ≡ false) (own : m.message_id ≡ some i) where
    not_in_order : (t : Text) → count Text-discrete i (ids_of s t) ≡ 0
    not_in_order t = ground (arith, v.ordered t i)

    counted-append : (j : Text) → Known (append target i m s) j → last_number 0 j ≤ s.seq
    counted-append j k = elim (old_or_new j k) [
      | inl e ↦ rw (← e) small
      | inr old ↦ v.counted j old
    ]

    named-append :
        (j : Text) (x : Message)
        → find_message (append target i m s) j ≡ some x
        → x.message_id ≡ some j
    named-append j x e = elim (Text-discrete i j) [
      | yes p ↦ ground (arith, find-append j)
      | no n ↦ v.named j x (ground (arith, find-append j))
    ]

    ordered-append :
        (t j : Text)
        → 0 < count Text-discrete j (ids_of (append target i m s) t)
        → Known (append target i m s) j
    ordered-append t j h = elim (Text-discrete j i) [
      | yes p ↦ rw p known-append
      | no n ↦ grown-append j (v.ordered t j (omega (arith, count-ids-le t j, single_ne j n)))
    ]

    once-append : (t j : Text) → count Text-discrete j (ids_of (append target i m s) t) ≤ 1
    once-append t j = elim (Text-discrete j i) [
      | yes p ↦ rw p (omega (arith, count-ids-le t i, not_in_order t, single i))
      | no n ↦ omega (arith, count-ids-le t j, v.once t j, single_ne j n)
    ]

    pub append-Grows : Grows s (append target i m s)
    append-Grows = record {
      valid = record {
        counted = λ j k. unfold append in counted-append j k;
        named = named-append;
        ordered = ordered-append;
        once = once-append;
        texts = λ k j e. grown-append j (v.texts k j (unfold append in e));
        receipts = λ op c e. v.receipts op c (unfold append in e);
      };
      extends = append-Extends;
    }
