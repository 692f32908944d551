-- ===== src/Prelude/Counting.antt =====
-- Membership, subsets and `set(xs)`, in terms of how often an element occurs.
use Prim.Native.Nat.{suc, ◌+◌, ◌≤◌, ◌<◌}
use mathlib.Core.Path.{◌≡◌, refl}
use mathlib.Core.List.{List, [], ◌∷◌, ◌++◌}
use mathlib.Core.Bool.{true}
use native.Mathlib.Omega.{arith}
use coresmos.Prelude.Tests.{ltb}
use coresmos.Prelude.Lists.{length, elem, count, to_set, is_subset}

module _ {ℓ} {A : Type ℓ} (dec : Discrete A) where
  pub elem-count : (a : A) (xs : List A) → elem dec a xs ≡ ltb 0 (count dec a xs)
  unfolding elem count
  elem-count a [] = refl
  elem-count a (x ∷ xs) = ground (arith, elem-count a xs)

  pub count-append :
      (a : A) (xs ys : List A) → count dec a (xs ++ ys) ≡ count dec a xs + count dec a ys
  unfolding count
  count-append a [] ys = omega arith
  count-append a (x ∷ xs) ys = ground (arith, count-append a xs ys)

  pub count-le-length : (a : A) (xs : List A) → count dec a xs ≤ length xs
  unfolding count
  count-le-length a [] = omega arith
  count-le-length a (x ∷ xs) = ground (arith, count-le-length a xs)

  pub is_subset_sound :
      (xs ys : List A)
      → is_subset dec xs ys ≡ true
      → (a : A) → 0 < count dec a xs
      → 0 < count dec a ys
  unfolding is_subset count
  is_subset_sound [] ys h a k = absurd (omega arith)
  is_subset_sound (x ∷ xs) ys h a k =
      ground (arith, elem-count x ys, is_subset_sound xs ys, is_subset_sound xs ys (ground arith) a)

  pub count_self : (a : A) (xs : List A) → count dec a (a ∷ xs) ≡ suc (count dec a xs)
  unfolding count
  count_self a xs = ground arith

  pub count-le-cons : (a x : A) (xs : List A) → count dec a xs ≤ count dec a (x ∷ xs)
  unfolding count
  count-le-cons a x xs = ground arith

  pub is_subset_complete :
      (xs ys : List A)
      → ((a : A) → 0 < count dec a xs → 0 < count dec a ys)
      → is_subset dec xs ys ≡ true
  unfolding is_subset
  is_subset_complete [] ys h = refl
  is_subset_complete (x ∷ xs) ys h = ground (
    arith,
    elem-count x ys,
    h x (omega (arith, count_self x xs)),
    is_subset_complete xs ys (λ a k. h a (omega (arith, count-le-cons a x xs))),
  )

  pub elem-to_set : (a : A) (xs : List A) → elem dec a (to_set dec xs) ≡ elem dec a xs
  unfolding elem to_set
  elem-to_set a [] = refl
  elem-to_set a (x ∷ xs) = ground (arith, elem-to_set a xs, elem-to_set x xs)

  pub length-to_set-le : (xs : List A) → length (to_set dec xs) ≤ length xs
  unfolding to_set
  length-to_set-le [] = omega arith
  length-to_set-le (x ∷ xs) = ground (arith, length-to_set-le xs)

  pub count_le_one :
      (xs : List A) → length (to_set dec xs) ≡ length xs → (a : A) → count dec a xs ≤ 1
  unfolding to_set count
  count_le_one [] h a = omega arith
  count_le_one (x ∷ xs) h a = ground (
    arith,
    length-to_set-le xs,
    elem-to_set x xs,
    elem-count x xs,
    count_le_one xs (ground (arith, length-to_set-le xs)) a,
  )

  pub length-to_set :
      (xs : List A) → ((a : A) → count dec a xs ≤ 1) → length (to_set dec xs) ≡ length xs
  unfolding to_set
  length-to_set [] h = refl
  length-to_set (x ∷ xs) h = ground (
    arith,
    elem-to_set x xs,
    elem-count x xs,
    h x,
    count_self x xs,
    length-to_set xs (λ a. omega (arith, h a, count-le-cons a x xs)),
  )

  without : A → List A → List A
  without a [] = []
  without a (x ∷ xs) = elim (dec a x) [ yes _ ↦ xs | no _ ↦ x ∷ without a xs ]

  count-without :
      (a b : A) (xs : List A)
      → 0 < count dec a xs
      → count dec b xs ≡ count dec b (without a xs) + count dec b (a ∷ [])
  unfolding count without
  count-without a b [] h = absurd (omega arith)
  count-without a b (x ∷ xs) h = ground (arith, count-without a b xs)

  length-without :
      (a : A) (xs : List A) → 0 < count dec a xs → length xs ≡ suc (length (without a xs))
  unfolding count without
  length-without a [] h = absurd (omega arith)
  length-without a (x ∷ xs) h = ground (arith, length-without a xs)

  count-cons :
      (a x : A) (xs : List A) → count dec a (x ∷ xs) ≡ count dec a xs + count dec a (x ∷ [])
  unfolding count
  count-cons a x xs = ground arith

  length-le_of_count :
      (xs ys : List A) → ((a : A) → count dec a xs ≤ count dec a ys) → length xs ≤ length ys
  length-le_of_count [] ys h = omega arith
  length-le_of_count (x ∷ xs) ys h =
      let pos : 0 < count dec x ys = omega (arith, h x, count_self x xs) in
      omega (
        arith,
        length-without x ys pos,
        length-le_of_count xs (without x ys)
            (λ a. omega (arith, h a, count-without x a ys pos, count-cons a x xs)),
      )

  -- Lists that hold the same elements, as often, are equally long.
  pub length-eq_of_count :
      (xs ys : List A) → ((a : A) → count dec a xs ≡ count dec a ys) → length xs ≡ length ys
  length-eq_of_count xs ys h = omega (
    arith,
    length-le_of_count xs ys (λ a. omega (arith, h a)),
    length-le_of_count ys xs (λ a. omega (arith, h a)),
  )
