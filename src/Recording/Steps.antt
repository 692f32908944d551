-- ===== src/Recording/Steps.antt =====
-- How the parts that every operation is made of end.
use coresmos.Prelude.{
  ◌≡◌, refl, ◌∙◌, false, none, some, Text, Text-discrete, arith, inl, inr, Option-cases, elem,
  Bool-cases,
}
use coresmos.Errors.{Result, ok, ◌>>=◌, Result-cases, recording_error}
use coresmos.Recording.Store.{
  MemoryTranscript, CommittedOp, Exec, then_do, find_op, check_fail, discard, OpCall, replay,
}
use coresmos.Recording.Operations.{with_op, lift}
use coresmos.Recording.Facts.{Kept, Kept-refl, Ends, raised, returned}

pub Kept-trans : {a b c : MemoryTranscript} → Kept a b → Kept b c → Kept a c
Kept-trans p q = record {
  messages = q.messages ∙ p.messages;
  order = q.order ∙ p.order;
  ops = q.ops ∙ p.ops;
  text_ids = q.text_ids ∙ p.text_ids;
  version = q.version ∙ p.version;
  run_status = q.run_status ∙ p.run_status;
  seq = omega (arith, p.seq, q.seq);
}

pub Ends-map :
    {A : Type 0} {E F : MemoryTranscript → Type 0} {Q R : A → MemoryTranscript → Type 0}
    {r : Result A × MemoryTranscript}
    → ((s : MemoryTranscript) → E s → F s)
    → ((a : A) (s : MemoryTranscript) → Q a s → R a s)
    → Ends E Q r
    → Ends F R r
Ends-map f g (raised e s h) = raised e s (f s h)
Ends-map f g (returned a s h) = returned a s (g a s h)

module _ {A B : Type 0} {R : B → MemoryTranscript → Type 0} (s : MemoryTranscript) where
  -- A check that changes nothing comes first.
  pub Ends-lift :
      (f : MemoryTranscript → Result A) (g : A → Exec B)
      → ((a : A) → f s ≡ ok a → Ends (Kept s) R (g a s))
      → Ends (Kept s) R (then_do (lift f) g s)
  Ends-lift f g k = elim (Result-cases (f s)) [
    | inl (a, e) ↦ rw e (k a e)
    | inr (x, e) ↦ rw e (raised x s (Kept-refl s))
  ]

module _ {B : Type 0} {R : B → MemoryTranscript → Type 0} (s : MemoryTranscript) where
  pub Ends-check_fail :
      (op : Text) (g : Unit {0} → Exec B)
      → (elem Text-discrete op s.fail_ops ≡ false → Ends (Kept s) R (g tt s))
      → Ends (Kept s) R (then_do (check_fail op) g s)
  unfolding check_fail
  Ends-check_fail op g k = elim (Bool-cases (elem Text-discrete op s.fail_ops)) [
    | inl e ↦ rw e (
        raised recording_error (record s { fail_ops = discard op s.fail_ops })
          (record {
            messages = refl;
            order = refl;
            ops = refl;
            text_ids = refl;
            version = refl;
            run_status = refl;
            seq = omega arith;
          }))
    | inr e ↦ rw e (k e)
  ]

  -- A replay changes nothing; what is left is an operation that was not committed.
  pub Ends-with_op :
      (call : OpCall) (again : CommittedOp → Result B) (fresh : Exec B)
      → (elem Text-discrete call.logical_op_id s.fail_ops ≡ false
          → (c : CommittedOp) → find_op s call.logical_op_id ≡ some c
          → (b : B) → (replay c call >>= again) ≡ ok b
          → R b s)
      → (elem Text-discrete call.logical_op_id s.fail_ops ≡ false
          → find_op s call.logical_op_id ≡ none
          → Ends (Kept s) R (fresh s))
      → Ends (Kept s) R (with_op call again fresh s)
  unfolding with_op
  Ends-with_op call again fresh held k =
      Ends-check_fail call.logical_op_id
        (λ _ s1. elim (find_op s1 call.logical_op_id) [
          | some existing ↦ (replay existing call >>= again, s1)
          | none ↦ fresh s1
        ])
        (λ clear. elim (Option-cases (find_op s call.logical_op_id)) [
          | inl e ↦ rw e (k clear e)
          | inr (c, e) ↦ rw e (replayed clear c e)
        ])
    where
      replayed :
          elem Text-discrete call.logical_op_id s.fail_ops ≡ false
          → (c : CommittedOp) → find_op s call.logical_op_id ≡ some c
          → Ends (Kept s) R (replay c call >>= again, s)
      replayed clear c e0 = elim (Result-cases (replay c call >>= again)) [
        | inl (b, e) ↦ rw e (returned b s (held clear c e0 b e))
        | inr (x, e) ↦ rw e (raised x s (Kept-refl s))
      ]
