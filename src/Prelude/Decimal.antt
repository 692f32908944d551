-- ===== src/Prelude/Decimal.antt =====
-- `str(n)` of a natural number, and reading the number behind the last colon of a text back.
use Prim.Native.Nat.{ℕ, zero, suc, ◌+◌, ◌-◌, ◌*◌, ◌/◌, ◌%◌, ◌≤◌}
use mathlib.Core.Path.{◌≡◌, refl, ◌∙◌}
use mathlib.Core.Logic.{inl, inr}
use mathlib.Core.List.{[], ◌∷◌, ◌++◌}
use native.Mathlib.Omega.{arith}
use coresmos.Prelude.Tests.{ltb, ◌==◌, if◌then◌else◌, Bool-cases}
use coresmos.Prelude.Texts.{Text}

-- A number has no more digits than its value, if it has more than one.
unfoldable pub decimal_rounds : ℕ → ℕ → Text
decimal_rounds zero n = (48 + n % 10) ∷ []
decimal_rounds (suc f) n =
    let more = decimal_rounds f (n / 10) ++ (48 + n % 10) ∷ [] in
    if ltb n 10 then (48 + n) ∷ [] else more

unfoldable pub decimal : ℕ → Text
unfolding decimal_rounds
decimal n = decimal_rounds n n

-- The number that the digits behind the last colon spell.
pub last_number : ℕ → Text → ℕ
last_number acc [] = acc
last_number acc (c ∷ cs) = last_number (if c == 58 then 0 else acc * 10 + (c - 48)) cs

last_number-append :
    (acc : ℕ) (xs ys : Text) → last_number acc (xs ++ ys) ≡ last_number (last_number acc xs) ys
unfolding last_number
last_number-append acc [] ys = refl
last_number-append acc (x ∷ xs) ys =
    last_number-append (if x == 58 then 0 else acc * 10 + (x - 48)) xs ys

last_number-decimal_rounds : (f n : ℕ) → n ≤ f → last_number 0 (decimal_rounds f n) ≡ n
unfolding decimal_rounds last_number
last_number-decimal_rounds zero n h = ground arith
last_number-decimal_rounds (suc f) n h = elim (Bool-cases (ltb n 10)) [
  | inl small ↦ rw small (ground arith)
  | inr large ↦
      rw (large, last_number-append, last_number-decimal_rounds f (n / 10) (ground arith))
        (ground arith)
]

-- The number is read back from `prefix:n`, whatever the prefix.
pub last_number-decimal : (acc n : ℕ) (xs : Text) → last_number acc (xs ++ 58 ∷ decimal n) ≡ n
unfolding decimal
last_number-decimal acc n xs =
    last_number-append acc xs (58 ∷ decimal_rounds n n)
    ∙ (unfold last_number in last_number-decimal_rounds n n (omega arith))
