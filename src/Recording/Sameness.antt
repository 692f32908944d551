-- ===== src/Recording/Sameness.antt =====
-- When a call in src/agent_runtime/recording.py is the same as a committed operation.
use coresmos.Prelude.{
  ◌≡◌, refl, ap, true, false, Option, none, some, Text-discrete, if_pos, arith, ite,
}
use mathlib.Core.Bool.{false≢true}
use coresmos.Contracts.Enums.{LogicalOpKind-discrete}
use coresmos.Contracts.Receipts.{RecordTarget}
use coresmos.Recording.Payloads.{payload_eq, same, OptionNat-discrete, RecordTarget-discrete}
use coresmos.Recording.Store.{CommittedOp, OpCall, same_content, same_identity, same_option_target}

-- A call of the committed operation: of its kind, run, step and target, with an equal payload.
pub record Same (call : OpCall) (c : CommittedOp) : Type 0 where
  pub kind : c.kind ≡ call.kind
  pub payload : payload_eq c.payload call.payload ≡ true
  pub run_id : c.run_id ≡ call.run_id
  pub step_no : c.step_no ≡ call.step_no
  pub record_target : c.record_target ≡ call.record_target

same-eq {ℓ} : {A : Type ℓ} (dec : Discrete A) (a b : A) → same dec a b ≡ true → a ≡ b
same-eq dec a b h = from (dec a b) h
  where
    from : (e : Dec (a ≡ b)) → ite e true false ≡ true → a ≡ b
    from (yes p) h = p
    from (no n) h = absurd (false≢true h)

eq-same {ℓ} : {A : Type ℓ} (dec : Discrete A) (a b : A) → a ≡ b → same dec a b ≡ true
eq-same dec a b p = if_pos (dec a b) p true false

target-eq : (a b : Option RecordTarget) → same_option_target a b ≡ true → a ≡ b
target-eq none none h = refl
target-eq (some a) (some b) h = ap some (same-eq RecordTarget-discrete a b h)
target-eq none (some b) h = absurd (false≢true h)
target-eq (some a) none h = absurd (false≢true h)

eq-target : (a b : Option RecordTarget) → a ≡ b → same_option_target a b ≡ true
eq-target none none p = refl
eq-target (some a) (some b) p = eq-same RecordTarget-discrete a b (cc p)
eq-target none (some b) p = cc
eq-target (some a) none p = cc

pub checks-Same :
    (call : OpCall) (c : CommittedOp)
    → same_content c call ≡ true
    → same_identity c call ≡ true
    → Same call c
unfolding same_content same_identity
checks-Same call c h k = record {
  kind = same-eq LogicalOpKind-discrete c.kind call.kind (ground (arith, h));
  payload = ground (arith, h);
  run_id = same-eq Text-discrete c.run_id call.run_id (ground (arith, k));
  step_no = same-eq OptionNat-discrete c.step_no call.step_no (ground (arith, k));
  record_target = target-eq c.record_target call.record_target (ground (arith, k));
}

pub Same-checks :
    (call : OpCall) (c : CommittedOp)
    → Same call c
    → (same_content c call ≡ true) × (same_identity c call ≡ true)
unfolding same_content same_identity
Same-checks call c h = (
  rw (eq-same LogicalOpKind-discrete c.kind call.kind h.kind, h.payload) refl,
  rw
      (
        eq-same Text-discrete c.run_id call.run_id h.run_id,
        eq-same OptionNat-discrete c.step_no call.step_no h.step_no,
        eq-target c.record_target call.record_target h.record_target,
      )
      refl,
)
