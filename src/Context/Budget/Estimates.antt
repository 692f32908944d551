-- ===== src/Context/Budget/Estimates.antt =====
-- Estimates of messages: where they start from, how they add up, and what dropping messages does.
use coresmos.Prelude.{
  ℕ, ◌+◌, ◌≤◌, ◌≡◌, refl, List, [], ◌∷◌, ◌++◌, Text, arith, Bool-cases, inl, inr, ◌∙◌, sym,
}
use native.Mathlib.Nat.{add_assoc, add-zero}
use coresmos.Errors.{Result, ok, ◌>>=◌, Result-cases, >>=-returns}
use coresmos.Json.{Fields}
use coresmos.Contracts.Messages.{Message}
use coresmos.Context.Budget.{TokenEstimator, estimable_texts, estimate_texts, estimate_messages}

-- A result that starts from `k` more.
abbrev pub raised : ℕ → Result ℕ → Result ℕ
raised k r = r >>= λ n. ok (k + n)

module _ (str_dict : Fields → Text) (estimator : TokenEstimator) where
  estimate_texts-raised :
      (k total : ℕ) (ts : List Text)
      → estimate_texts str_dict estimator (k + total) ts
        ≡ raised k (estimate_texts str_dict estimator total ts)
  unfolding estimate_texts
  estimate_texts-raised k total [] = refl
  estimate_texts-raised k total (t ∷ ts) = elim (Bool-cases (estimator.can_estimate t)) [
    | inr no_way ↦ rw no_way refl
    | inl can ↦ elim (Result-cases (estimator.estimate_text t)) [
      | inr (e, fails) ↦ rw (can, fails) refl
      | inl (n, costs) ↦ rw (can, costs, add_assoc) (estimate_texts-raised k (total + n) ts)
    ]
  ]

  pub estimate_messages-raised :
      (k total : ℕ) (ms : List Message)
      → estimate_messages str_dict estimator (k + total) ms
        ≡ raised k (estimate_messages str_dict estimator total ms)
  unfolding estimate_messages
  estimate_messages-raised k total [] = refl
  estimate_messages-raised k total (m ∷ ms) =
      elim (Result-cases (estimate_texts str_dict estimator total (estimable_texts str_dict m))) [
        | inr (e, fails) ↦
            rw (estimate_texts-raised k total (estimable_texts str_dict m), fails) refl
        | inl (n, costs) ↦
            rw (estimate_texts-raised k total (estimable_texts str_dict m), costs)
              (estimate_messages-raised k n ms)
      ]

  pub estimate_messages-append :
      (total : ℕ) (xs ys : List Message)
      → estimate_messages str_dict estimator total (xs ++ ys) ≡ (
          estimate_messages str_dict estimator total xs >>= λ n.
          estimate_messages str_dict estimator n ys)
  unfolding estimate_messages
  estimate_messages-append total [] ys = refl
  estimate_messages-append total (m ∷ xs) ys =
      elim (Result-cases (estimate_texts str_dict estimator total (estimable_texts str_dict m))) [
        | inr (e, fails) ↦ rw fails refl
        | inl (n, costs) ↦ rw costs (estimate_messages-append n xs ys)
      ]

  module _ (ms : List Message) where
    pub estimate_messages-ok :
        (k n : ℕ)
        → estimate_messages str_dict estimator k ms ≡ ok n
        → (c : ℕ) × (estimate_messages str_dict estimator 0 ms ≡ ok c) × (n ≡ k + c)
    estimate_messages-ok k n h =
        let from_zero : raised k (estimate_messages str_dict estimator 0 ms) ≡ ok n =
          rw (← estimate_messages-raised, add-zero) h in
        elim (Result-cases (estimate_messages str_dict estimator 0 ms)) [
          | inr (e, fails) ↦ cc (fails, from_zero)
          | inl (c, costs) ↦ (c, costs, ground (arith, costs, from_zero))
        ]

    pub estimate_messages-from :
        (k c : ℕ)
        → estimate_messages str_dict estimator 0 ms ≡ ok c
        → estimate_messages str_dict estimator k ms ≡ ok (k + c)
    estimate_messages-from k c h =
        let e = estimate_messages-raised k 0 ms in ground (arith, e, h, add-zero k)

  pub estimate_messages-split :
      (k n : ℕ) (xs ys : List Message)
      → estimate_messages str_dict estimator k (xs ++ ys) ≡ ok n
      → (a : ℕ) × (b : ℕ) × (estimate_messages str_dict estimator 0 xs ≡ ok a)
        × (estimate_messages str_dict estimator 0 ys ≡ ok b)
        × (n ≡ k + a + b)
  estimate_messages-split k n xs ys h =
      let (m, first, second) = >>=-returns _ _ (sym (estimate_messages-append k xs ys) ∙ h) in
      let (a, ca, ea) = estimate_messages-ok xs k m first in
      let (b, cb, eb) = estimate_messages-ok ys m n second in (a, b, ca, cb, omega arith)

  pub estimate_messages-join :
      (k a b : ℕ) (xs ys : List Message)
      → estimate_messages str_dict estimator 0 xs ≡ ok a
      → estimate_messages str_dict estimator 0 ys ≡ ok b
      → estimate_messages str_dict estimator k (xs ++ ys) ≡ ok (k + a + b)
  estimate_messages-join k a b xs ys ha hb =
      rw (estimate_messages-append, estimate_messages-from xs k a ha)
        (estimate_messages-from ys (k + a) b hb)

  -- Leaving messages out never costs more, and never becomes impossible to measure.
  pub estimate_messages-drop :
      (k n : ℕ) (xs ys zs : List Message)
      → estimate_messages str_dict estimator k (xs ++ (ys ++ zs)) ≡ ok n
      → (n' : ℕ) × (estimate_messages str_dict estimator k (xs ++ zs) ≡ ok n') × (n' ≤ n)
  estimate_messages-drop k n xs ys zs h =
      let (a, b, ca, cb, e) = estimate_messages-split k n xs (ys ++ zs) h in
      let (c, d, cc', cd, e') = estimate_messages-split 0 b ys zs cb in
      (k + a + d, estimate_messages-join k a d xs zs ca cd, omega arith)
