-- ===== src/Generators/Returning.antt =====
-- What a generator that returned has yielded and returned.
use coresmos.Prelude.{◌≡◌, refl, Bool, true, false, if◌then◌else◌, List, [], ◌∷◌, ◌++◌}
use coresmos.Errors.{Error, Result, ok, raise}
use coresmos.Generators.{
  Generator, ◌>>=◌, resume, return, throw, yield, call, check, modify, catch, caught,
}

-- Nothing was yielded.
abbrev pub Nothing : {E A : Type 0} → List E → A → Type 0
Nothing events a = events ≡ []

module _ {S E : Type 0} where
  -- Nothing is said of a generator that raised.
  pub data Post {A : Type 0} (P : List E → A → Type 0) : List E × Result A × S → Type 0 where
    failed : (events : List E) (e : Error) (s : S) → Post P (events, raise e, s)
    finished : (events : List E) (a : A) (s : S) → P events a → Post P (events, ok a, s)

  pub record Returns {A : Type 0} (P : List E → A → Type 0) (m : Generator S E A) : Type 0 where
    pub post : (s : S) → Post P (m s)

  module _ {A B : Type 0} {P : List E → A → Type 0} {Q : List E → B → Type 0}
      (rest : A → Generator S E B)
      (k : (xs : List E) (a : A) → P xs a → Returns (λ ys b. Q (xs ++ ys) b) (rest a)) where
    join_Post :
        {r : List E × Result B × S} (xs : List E)
        → Post (λ ys b. Q (xs ++ ys) b) r
        → Post Q (xs ++ r.0, r.1, r.2)
    join_Post xs (failed ys e s) = failed (xs ++ ys) e s
    join_Post xs (finished ys b s q) = finished (xs ++ ys) b s q

    resume-Post : {r : List E × Result A × S} → Post P r → Post Q (resume r rest)
    resume-Post (failed xs e s) = failed xs e s
    resume-Post (finished xs a s p) = join_Post xs ((k xs a p).post s)

    pub >>=-Returns : {m : Generator S E A} → Returns P m → Returns Q (m >>= rest)
    unfolding ◌>>=◌
    >>=-Returns h = record { post = λ s. resume-Post (h.post s) }

  map-Post :
      {A : Type 0} {P Q : List E → A → Type 0} {r : List E × Result A × S}
      → ((events : List E) (a : A) → P events a → Q events a)
      → Post P r
      → Post Q r
  map-Post f (failed xs e s) = failed xs e s
  map-Post f (finished xs a s p) = finished xs a s (f xs a p)

  pub Returns-map :
      {A : Type 0} {P Q : List E → A → Type 0} {m : Generator S E A}
      → ((events : List E) (a : A) → P events a → Q events a)
      → Returns P m
      → Returns Q m
  Returns-map f h = record { post = λ s. map-Post f (h.post s) }

  pub >>=-after-Nothing :
      {A B : Type 0} {Q : List E → B → Type 0} {m : Generator S E A} {rest : A → Generator S E B}
      → Returns Nothing m
      → ((a : A) → Returns Q (rest a))
      → Returns Q (m >>= rest)
  >>=-after-Nothing {rest} h k = >>=-Returns {P = Nothing} rest (λ xs a e. rw e (k a)) h

  module _ {A : Type 0} {P : List E → A → Type 0} where
    pub return-Returns : (a : A) → P [] a → Returns P (return a)
    unfolding return
    return-Returns a p = record { post = λ s. finished [] a s p }

    pub throw-Returns : (e : Error) → Returns P (throw e)
    unfolding throw
    throw-Returns e = record { post = λ s. failed [] e s }

    ended-Post : (r : Result A) (s : S) → ((a : A) → r ≡ ok a → P [] a) → Post P ([], r, s)
    ended-Post (raise e) s h = failed [] e s
    ended-Post (ok a) s h = finished [] a s (h a refl)

    pub call-Returns : (f : S → Result A × S) → ((a : A) → P [] a) → Returns P (call f)
    unfolding call
    call-Returns f h = record { post = λ s. ended-Post (f s).0 (f s).1 (λ a _. h a) }

    pub check-Returns : (r : Result A) → ((a : A) → r ≡ ok a → P [] a) → Returns P (check r)
    unfolding check
    check-Returns r h = record { post = λ s. ended-Post r s h }

    caught-Post :
        {r : List E × Result A × S} (e' : Error → Error)
        → Post P r
        → Post P (caught r (λ e. throw (e' e)))
    unfolding throw
    caught-Post e' (failed xs e s) = failed (xs ++ []) (e' e) s
    caught-Post e' (finished xs a s p) = finished xs a s p

    -- An exception is raised as another one.
    pub catch-Returns :
        {m : Generator S E A} (e' : Error → Error)
        → Returns P m
        → Returns P (catch m (λ e. throw (e' e)))
    unfolding catch
    catch-Returns e' h = record { post = λ s. caught-Post e' (h.post s) }

    pub if-Returns :
        (b : Bool) (m n : Generator S E A)
        → Returns P m
        → Returns P n
        → Returns P (if b then m else n)
    if-Returns true m n h k = h
    if-Returns false m n h k = k

  module _ {P : List E → Unit {0} → Type 0} where
    pub yield-Returns : (event : E) → P (event ∷ []) tt → Returns P (yield event)
    unfolding yield
    yield-Returns event p = record { post = λ s. finished (event ∷ []) tt s p }

    pub modify-Returns : (f : S → S) → P [] tt → Returns P (modify f)
    unfolding modify
    modify-Returns f p = record { post = λ s. finished [] tt (f s) p }
