-- ===== src/Generators/Reaching.antt =====
-- What a generator that returned, from one state, has yielded, returned and left.
use coresmos.Prelude.{◌≡◌, refl, List, ◌++◌, Bool, true, false, if◌then◌else◌}
use coresmos.Errors.{Error, Result, ok, raise}
use coresmos.Generators.{Generator, ◌>>=◌, resume}
use coresmos.Generators.Returning.{Returns, Post, failed, finished}

module _ {S E : Type 0} where
  -- Nothing is said of a generator that raised.
  pub data Reached {A : Type 0} (P : List E → A → S → Type 0) : List E × Result A × S → Type 0 where
    raised : (events : List E) (e : Error) (s : S) → Reached P (events, raise e, s)
    reached : (events : List E) (a : A) (s : S) → P events a s → Reached P (events, ok a, s)

  pub Reached-map :
      {A : Type 0} {P Q : List E → A → S → Type 0} {r : List E × Result A × S}
      → ((events : List E) (a : A) (s : S) → P events a s → Q events a s)
      → Reached P r
      → Reached Q r
  Reached-map f (raised events e s) = raised events e s
  Reached-map f (reached events a s p) = reached events a s (f events a s p)

  module _ {A B : Type 0} {P : List E → A → S → Type 0} {Q : List E → B → S → Type 0}
      (rest : A → Generator S E B)
      (k : (xs : List E) (a : A) (s : S)
        → P xs a s
        → Reached (λ ys b s'. Q (xs ++ ys) b s') (rest a s)) where
    join_Reached :
        {r : List E × Result B × S} (xs : List E)
        → Reached (λ ys b s'. Q (xs ++ ys) b s') r
        → Reached Q (xs ++ r.0, r.1, r.2)
    join_Reached xs (raised ys e s) = raised (xs ++ ys) e s
    join_Reached xs (reached ys b s q) = reached (xs ++ ys) b s q

    resume-Reached : {r : List E × Result A × S} → Reached P r → Reached Q (resume r rest)
    resume-Reached (raised xs e s) = raised xs e s
    resume-Reached (reached xs a s p) = join_Reached xs (k xs a s p)

    pub >>=-Reached : (m : Generator S E A) (s : S) → Reached P (m s) → Reached Q ((m >>= rest) s)
    unfolding ◌>>=◌
    >>=-Reached m s h = resume-Reached h

  -- What is known of the state in any case.
  pub Reached-state :
      {A : Type 0} {Q : S → Type 0} (r : List E × Result A × S)
      → Q r.2
      → Reached (λ _ (a : A) s. Q s) r
  Reached-state (events, raise e, s) q = raised events e s
  Reached-state (events, ok a, s) q = reached events a s q

  both-Reached :
      {A : Type 0} {P : List E → A → Type 0} {Q : S → Type 0} {r : List E × Result A × S}
      → Post P r
      → Q r.2
      → Reached (λ events a s. P events a × Q s) r
  both-Reached (failed events e s) q = raised events e s
  both-Reached (finished events a s p) q = reached events a s (p, q)

  -- What is known of the events, and of the state in any case.
  pub Returns-Reached :
      {A : Type 0} {P : List E → A → Type 0} {Q : S → Type 0} {m : Generator S E A} (s : S)
      → Returns P m
      → Q (m s).2
      → Reached (λ events a s'. P events a × Q s') (m s)
  Returns-Reached s h q = both-Reached (h.post s) q

  pub if-Reached :
      {A : Type 0} {P : List E → A → S → Type 0} (b : Bool) (m n : Generator S E A) (s : S)
      → Reached P (m s)
      → Reached P (n s)
      → Reached P ((if b then m else n) s)
  if-Reached true m n s h k = h
  if-Reached false m n s h k = k

  pub Reached-ok :
      {A : Type 0} {P : List E → A → S → Type 0} {events : List E} {a : A} {s : S}
      → Reached P (events, ok a, s)
      → P events a s
  Reached-ok (reached events a s p) = p

  -- Both branches of a test, where each knows how it came out.
  pub test-Reached :
      {A : Type 0} {P : List E → A → S → Type 0} (b : Bool) (m n : Generator S E A) (s : S)
      → (b ≡ true → Reached P (m s))
      → (b ≡ false → Reached P (n s))
      → Reached P ((if b then m else n) s)
  test-Reached true m n s h k = h refl
  test-Reached false m n s h k = k refl
