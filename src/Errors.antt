-- ===== src/Errors.antt =====
-- The exception classes of src/agent_runtime/exceptions.py, and computations that may raise one. The
-- message texts of the exceptions are left out: no code branches on them.
use coresmos.Prelude.{◌≡◌, refl, ◌⊎◌, inl, inr, Bool, true, false}
use coresmos.Contracts.Enums.{StopReason}

pub data Error : Type 0 where
  protocol_error completion_protocol_error : Error
  recording_error idempotency_error message_not_found_error receipt_mismatch_error : Error
  budget_exhausted_error adapter_error capability_error schema_validation_error : Error
  context_budget_error version_conflict_error cleanup_timeout_error : Error
  cancelled_run_error : StopReason → Error
  -- A built-in exception, such as `AssertionError`.
  assertion_error value_error runtime_error key_error type_error : Error
  -- `asyncio.CancelledError`.
  task_cancelled : Error

-- The subclasses that `except RecordingError` catches.
abbrev pub is_recording_error : Error → Bool
is_recording_error recording_error = true
is_recording_error idempotency_error = true
is_recording_error message_not_found_error = true
is_recording_error receipt_mismatch_error = true
is_recording_error _ = false

-- A call that returns a value or raises an exception.
pub data Result {ℓ} (A : Type ℓ) : Type ℓ where
  raise : Error → Result A
  ok : A → Result A

module _ {ℓ κ} {A : Type ℓ} {B : Type κ} where
  infixl 5 ◌>>=◌
  -- What follows a call runs on its value; an exception passes through.
  abbrev pub ◌>>=◌ : Result A → (A → Result B) → Result B
  call >>= rest = elim call [ raise e ↦ raise e | ok value ↦ rest value ]

  -- If a call and what follows it return `b`, the call returned some value, and `b` came from that.
  pub >>=-returns :
      (call : Result A) (rest : A → Result B) {b : B}
      → (call >>= rest) ≡ ok b
      → (value : A) × (call ≡ ok value) × (rest value ≡ ok b)
  >>=-returns (raise e) rest h = cc
  >>=-returns (ok value) rest h = (value, refl, h)

infixl 5 ◌>>◌
abbrev pub ◌>>◌ {ℓ} : {B : Type ℓ} → Result (Unit {0}) → Result B → Result B
check >> rest = elim check [ raise e ↦ raise e | ok _ ↦ rest ]

-- `if not b: raise e`
abbrev pub require : Bool → Error → Result (Unit {0})
require b e = elim b [ true ↦ ok tt | false ↦ raise e ]

pub Result-cases {ℓ} :
    {A : Type ℓ} (r : Result A) → ((a : A) × (r ≡ ok a)) ⊎ ((e : Error) × (r ≡ raise e))
Result-cases (raise e) = inr (e, refl)
Result-cases (ok a) = inl (a, refl)

-- A sequence that returned ran both of its parts, and a check that returned held.
pub >>-returns {ℓ} :
    {B : Type ℓ} (check : Result (Unit {0})) (rest : Result B) (b : B)
    → (check >> rest) ≡ ok b
    → (check ≡ ok tt) × (rest ≡ ok b)
>>-returns (raise e) rest b h = cc
>>-returns (ok u) rest b h = (refl, h)

pub require-returns : (b : Bool) (e : Error) → require b e ≡ ok tt → b ≡ true
require-returns true e h = refl
require-returns false e h = cc
