-- ===== src/Recording/Texts.antt =====
-- Changing a message, giving an attempt its message, and storing an operation.
use coresmos.Prelude.{
  ◌+◌, ◌≡◌, refl, ap, ◌∙◌, sym, true, false, none, some, [], Text, Text-discrete, codes, get, put,
  get-put, ite, arith, inl, inr, Option-cases,
}
use mathlib.Core.List.{append-nil}
use mathlib.Core.Bool.{false≢true}
use coresmos.Errors.{ok}
use coresmos.Contracts.Messages.{Message}
use coresmos.Contracts.Receipts.{RecordTarget}
use coresmos.Recording.Store.{
  MemoryTranscript, CommittedOp, TextKey, TextKey-discrete, proceed, find_message, find_op, ids_of,
  id_text, store_op, append, replace,
}
use coresmos.Recording.Operations.{is_known, upsert}
use coresmos.Recording.Facts.{Known, has_receipt, IsValid, Kept, Ends, returned}
use coresmos.Recording.Writing.{
  Grows, Grows-trans, bump, bump-Grows, new_id, last_number-id_text, append-Grows, known-append,
}

module _ (s : MemoryTranscript) (i : Text) (m : Message) where
  abbrev pub changed : MemoryTranscript
  changed = record s { messages = put Text-discrete i m s.messages; version = s.version + 1 }

  pub find-changed :
      (j : Text) → find_message changed j ≡ ite (Text-discrete i j) (some m) (find_message s j)
  find-changed j = get-put Text-discrete i j m s.messages

  module _ (v : IsValid s) (old : Known s i) (own : m.message_id ≡ some i) where
    still : (j : Text) → Known s j → Known changed j
    still j k = ground (arith, find-changed j)

    before : (j : Text) → Known changed j → Known s j
    before j k = elim (Text-discrete i j) [
      | yes p ↦ rw (← p) old
      | no n ↦ ground (arith, find-changed j)
    ]

    named-changed :
        (j : Text) (x : Message) → find_message changed j ≡ some x → x.message_id ≡ some j
    named-changed j x e = elim (Text-discrete i j) [
      | yes p ↦ ground (arith, find-changed j)
      | no n ↦ v.named j x (ground (arith, find-changed j))
    ]

    pub changed-Grows : Grows s changed
    changed-Grows = record {
      valid = record {
        counted = λ j k. v.counted j (before j k);
        named = named-changed;
        ordered = λ t j h. still j (v.ordered t j h);
        once = v.once;
        texts = λ k j e. still j (v.texts k j e);
        receipts = v.receipts;
      };
      extends = record {
        messages = still;
        order = λ t. ([], sym (append-nil (ids_of s t)));
        ops = λ op c e. e;
        text_ids = λ k j e. e;
        seq = omega arith;
        version = omega arith;
      };
    }

module _ (s : MemoryTranscript) (key : TextKey) (i : Text) where
  abbrev pub keyed : MemoryTranscript
  keyed = record s { text_ids = put TextKey-discrete key i s.text_ids }

  pub keyed-Grows :
      IsValid s → Known s i → get TextKey-discrete key s.text_ids ≡ none → Grows s keyed
  keyed-Grows v known fresh = record {
    valid = record {
      counted = v.counted;
      named = v.named;
      ordered = v.ordered;
      once = v.once;
      texts = λ k j e. elim (TextKey-discrete key k) [
        | yes p ↦ rw (← i_is k j e p) known
        | no n ↦ v.texts k j (ground (arith, get-put TextKey-discrete key k i s.text_ids))
      ];
      receipts = v.receipts;
    };
    extends = record {
      messages = λ j k. k;
      order = λ t. ([], sym (append-nil (ids_of s t)));
      ops = λ op c e. e;
      text_ids = λ k j e. ground (arith, get-put TextKey-discrete key k i s.text_ids);
      seq = omega arith;
      version = omega arith;
    };
  }
    where
      i_is :
          (k : TextKey) (j : Text)
          → get TextKey-discrete k (put TextKey-discrete key i s.text_ids) ≡ some j
          → key ≡ k
          → i ≡ j
      i_is k j e p = ground (arith, get-put TextKey-discrete key k i s.text_ids)

module _ (s : MemoryTranscript) (op : Text) (c : CommittedOp) where
  pub store_op-Grows :
      IsValid s → find_op s op ≡ none → has_receipt c.kind c ≡ true → Grows s (store_op op c s)
  unfolding store_op
  store_op-Grows v fresh held = record {
    valid = record {
      counted = v.counted;
      named = v.named;
      ordered = v.ordered;
      once = v.once;
      texts = v.texts;
      receipts = λ o d e. elim (Text-discrete op o) [
        | yes p ↦ rw (← c_is o d e p) held
        | no n ↦ v.receipts o d (ground (arith, get-put Text-discrete op o c s.ops))
      ];
    };
    extends = record {
      messages = λ j k. k;
      order = λ t. ([], sym (append-nil (ids_of s t)));
      ops = λ o d e. ground (arith, get-put Text-discrete op o c s.ops);
      text_ids = λ k j e. e;
      seq = omega arith;
      version = omega arith;
    };
  }
    where
      c_is :
          (o : Text) (d : CommittedOp)
          → get Text-discrete o (put Text-discrete op c s.ops) ≡ some d
          → op ≡ o
          → c ≡ d
      c_is o d e p = ground (arith, get-put Text-discrete op o c s.ops)

  pub find-store_op : find_op (store_op op c s) op ≡ some c
  unfolding store_op
  find-store_op = ground (arith, get-put Text-discrete op op c s.ops)

-- Facts were added, but no operation is stored yet.
pub record Writes (s s' : MemoryTranscript) : Type 0 where
  pub grows : Grows s s'
  pub same_ops : s'.ops ≡ s.ops
  pub same_fails : s'.fail_ops ≡ s.fail_ops

-- The id of the next message of a run.
abbrev pub fresh_id : Text → MemoryTranscript → Text
fresh_id run_id s = id_text (codes "msg") run_id (s.seq + 1)

pub fresh-new :
    {s : MemoryTranscript} (run_id : Text)
    → IsValid s
    → is_known (find_message (bump s) (fresh_id run_id s)) ≡ false
fresh-new {s} run_id v =
    new_id (fresh_id run_id s) v
      (omega (arith, last_number-id_text (codes "msg") run_id (s.seq + 1)))

-- A message under the next id is new, and keeps the transcript valid.
pub append_fresh-Grows :
    {s : MemoryTranscript} (run_id : Text) (target : RecordTarget) (m : Message)
    → IsValid s
    → m.message_id ≡ some (fresh_id run_id s)
    → Grows s (append target (fresh_id run_id s) m (bump s))
append_fresh-Grows {s} run_id target m v own =
    let g = bump-Grows v in
    Grows-trans g (
      append-Grows (bump s) target (fresh_id run_id s) m g.valid
        (omega (arith, last_number-id_text (codes "msg") run_id (s.seq + 1))) (fresh-new run_id v)
        own)

replace_old :
    (s : MemoryTranscript) (i : Text) (m old : Message)
    → find_message s i ≡ some old
    → replace i m s ≡ (ok tt, changed s i m)
unfolding replace
replace_old s i m old f = rw (f, replace)

module _ (key : TextKey) (target : RecordTarget) (new : Message) (change : Message → Message)
    (s : MemoryTranscript) where
  pub upsert_new :
      get TextKey-discrete key s.text_ids ≡ none
      → upsert key target new change s ≡ (
        ok (fresh_id key.run_id s, true),
        keyed
            (append target
              (fresh_id key.run_id s)
              (record new { message_id = some (fresh_id key.run_id s) })
              (bump s))
            key
            (fresh_id key.run_id s),
      )
  unfolding upsert
  upsert_new e = rw (e, upsert)

  pub upsert_old :
      (i : Text) (current : Message)
      → get TextKey-discrete key s.text_ids ≡ some i
      → find_message s i ≡ some current
      → upsert key target new change s ≡ (ok (i, false), changed s i (change current))
  unfolding upsert
  upsert_old i current e f =
      rw (e, f, upsert)
        (ap (λ r. proceed r (λ _ s2. (ok (i, false), s2)))
          (replace_old s i (change current) current f))

  -- The message of an attempt is written under an id that is stored.
  pub upsert-Ends :
      IsValid s
      → ((m : Message) → (change m).message_id ≡ m.message_id)
      → Ends (Kept s) (λ w s'. Writes s s' × Known s' w.0) (upsert key target new change s)
  upsert-Ends v own = elim (Option-cases (get TextKey-discrete key s.text_ids)) [
    | inl e ↦
        let i = fresh_id key.run_id s in
        let m = record new { message_id = some i } in
        let g = append_fresh-Grows key.run_id target m v refl in
        let k = known-append (bump s) target i m in
        rw (upsert_new e) (
          returned (i, true) _
            (
              record {
                grows = Grows-trans g (keyed-Grows _ key i g.valid k (unfold append in e));
                same_ops = unfold append in refl;
                same_fails = unfold append in refl;
              },
              k,
            ))
    | inr (i, e) ↦ elim (Option-cases (find_message s i)) [
      | inl f ↦ absurd (false≢true (rw f at (v.texts key i e)))
      | inr (current, f) ↦
          let known : Known s i = rw f in
          let g = changed-Grows s i (change current) v known (own current ∙ v.named i current f) in
          rw (upsert_old i current e f) (
            returned (i, false) _
              (
                record { grows = g; same_ops = refl; same_fails = refl },
                g.extends.messages i known,
              ))
    ]
  ]
