-- ===== src/Pipelines/Protocol.antt =====
-- Generators that yield at most one completion, as their last event and just before they return: what a
-- phase of src/agent_runtime/pipelines owes the loop of src/agent_runtime/core.py.
use mathlib.Core.List.{append_assoc, append-nil}
use mathlib.Core.Bool.{false≢true}
use coresmos.Prelude.{
  ◌≡◌, refl, ap, sym, Bool, true, false, if◌then◌else◌, Option, none, some, List, [], ◌∷◌, ◌++◌,
  inl, inr, Bool-cases,
}
use coresmos.Errors.{Error, Result, ok, raise}
use coresmos.Loop.Streams.{
  ManagedEventStream, strict_from, iterate_strict, consume_strict, finish, ending_error, has_none,
}
use coresmos.Loop.Strict.{consume_strict_iff, same_error, has_none-append}
use coresmos.Generators.{
  Generator, ◌>>=◌, resume, return, throw, yield, call, check, modify, catch, caught,
}

-- The stream that a phase hands to the loop.
abbrev pub streamed : {S E : Type 0} → List E × Result (Unit {0}) × S → ManagedEventStream E
streamed (events, raise e, s) = record { items = events; failure = some e }
streamed (events, ok _, s) = record { items = events; failure = none }

abbrev pub quiet : {A : Type 0} → A → Bool
quiet a = false

strict_from-failed :
    {E : Type 0} (is_completion : E → Bool) (last : Option E) (events : List E) (e : Error)
    → has_none is_completion events ≡ true
    → strict_from is_completion none last events (some e) ≡ (events, raise e)
unfolding strict_from finish ending_error has_none
strict_from-failed is_completion last [] e h = ap (λ x. ([], raise x)) (same_error e)
strict_from-failed is_completion last (x ∷ xs) e h = elim (Bool-cases (is_completion x)) [
  | inl i ↦ absurd (false≢true (rw i at h))
  | inr i ↦ rw (i, strict_from-failed is_completion (some x) xs e (rw i at h)) refl
]

module _ {S E : Type 0} (is_completion : E → Bool) where
  -- What was yielded and how it ended: a completion comes last, and only where the value says so.
  pub data Said {A : Type 0} (done : A → Bool) : List E × Result A × S → Type 0 where
    raised :
        (events : List E) (e : Error) (s : S)
        → has_none is_completion events ≡ true
        → Said done (events, raise e, s)
    silent :
        (events : List E) (a : A) (s : S)
        → has_none is_completion events ≡ true
        → done a ≡ false
        → Said done (events, ok a, s)
    spoken :
        (before : List E) (c : E) (a : A) (s : S)
        → has_none is_completion before ≡ true
        → is_completion c ≡ true
        → done a ≡ true
        → Said done (before ++ c ∷ [], ok a, s)

  pub record Speaks {A : Type 0} (done : A → Bool) (m : Generator S E A) : Type 0 where
    pub said : (s : S) → Said done (m s)

  -- A generator that yields no completion.
  abbrev pub Quiet : {A : Type 0} → Generator S E A → Type 0
  Quiet m = Speaks quiet m

  add_quiet :
      {B : Type 0} {done' : B → Bool} {r : List E × Result B × S} (events : List E)
      → has_none is_completion events ≡ true
      → Said done' r
      → Said done' (events ++ r.0, r.1, r.2)
  add_quiet events h (raised es e s k) =
      raised (events ++ es) e s (has_none-append is_completion events es h k)
  add_quiet events h (silent es b s k d) =
      silent (events ++ es) b s (has_none-append is_completion events es h k) d
  add_quiet events h (spoken before c b s k i d) =
      rw (← append_assoc events before (c ∷ []))
        (spoken (events ++ before) c b s (has_none-append is_completion events before h k) i d)

  module _ {A B : Type 0} {done : A → Bool} {done' : B → Bool} (rest : A → Generator S E B)
      (over : (a : A) (s : S)
        → done a ≡ true
        → (b : B) × (s' : S) × (rest a s ≡ ([], ok b, s')) × (done' b ≡ true))
      (more : (a : A) → done a ≡ false → Speaks done' (rest a)) where
    resume-Said : {r : List E × Result A × S} → Said done r → Said done' (resume r rest)
    resume-Said (raised es e s h) = raised es e s h
    resume-Said (silent es a s h d) = add_quiet es h ((more a d).said s)
    resume-Said (spoken before c a s h i d) =
        let (b, s', same, d') = over a s d in
        rw (same, append-nil (before ++ c ∷ [])) (spoken before c b s' h i d')

    -- What follows a generator that has spoken says nothing.
    pub >>=-over : {m : Generator S E A} → Speaks done m → Speaks done' (m >>= rest)
    unfolding ◌>>=◌
    >>=-over h = record { said = λ s. resume-Said (h.said s) }

  pub >>=-Speaks :
      {A B : Type 0} {done : B → Bool} {m : Generator S E A} {rest : A → Generator S E B}
      → Quiet m
      → ((a : A) → Speaks done (rest a))
      → Speaks done (m >>= rest)
  >>=-Speaks {rest} h k = >>=-over rest (λ a s e. absurd (false≢true e)) (λ a _. k a) h

  pub return-Speaks :
      {A : Type 0} {done : A → Bool} (a : A) → done a ≡ false → Speaks done (return a)
  unfolding return
  return-Speaks a d = record { said = λ s. silent [] a s (unfold has_none in refl) d }

  pub throw-Speaks : {A : Type 0} {done : A → Bool} (e : Error) → Speaks done (throw e)
  unfolding throw
  throw-Speaks e = record { said = λ s. raised [] e s (unfold has_none in refl) }

  pub yield-Quiet : (event : E) → is_completion event ≡ false → Quiet (yield event)
  unfolding yield
  yield-Quiet event h = record {
    said = λ s. silent (event ∷ []) tt s (unfold has_none in rw h refl) refl;
  }

  -- The completion.
  pub yield-Speaks :
      {done : Unit {0} → Bool} (event : E)
      → is_completion event ≡ true
      → done tt ≡ true
      → Speaks done (yield event)
  unfolding yield
  yield-Speaks event h d = record { said = λ s. spoken [] event tt s (unfold has_none in refl) h d }

  ended-Said : {A : Type 0} (r : Result A) (s : S) → Said quiet ([], r, s)
  ended-Said (raise e) s = raised [] e s (unfold has_none in refl)
  ended-Said (ok a) s = silent [] a s (unfold has_none in refl) refl

  pub call-Quiet : {A : Type 0} (f : S → Result A × S) → Quiet (call f)
  unfolding call
  call-Quiet f = record { said = λ s. ended-Said (f s).0 (f s).1 }

  pub check-Quiet : {A : Type 0} (r : Result A) → Quiet (check r)
  unfolding check
  check-Quiet r = record { said = λ s. ended-Said r s }

  pub modify-Quiet : (f : S → S) → Quiet (modify f)
  unfolding modify
  modify-Quiet f = record { said = λ s. silent [] tt (f s) (unfold has_none in refl) refl }

  caught-Said :
      {A : Type 0} {r : List E × Result A × S} (handler : Error → Generator S E A)
      → Said quiet r
      → ((e : Error) → Quiet (handler e))
      → Said quiet (caught r handler)
  caught-Said handler (raised es e s h) k = add_quiet es h ((k e).said s)
  caught-Said handler (silent es a s h d) k = silent es a s h d
  caught-Said handler (spoken before c a s h i d) k = absurd (false≢true d)

  pub catch-Quiet :
      {A : Type 0} {m : Generator S E A} {handler : Error → Generator S E A}
      → Quiet m
      → ((e : Error) → Quiet (handler e))
      → Quiet (catch m handler)
  unfolding catch
  catch-Quiet {handler} h k = record { said = λ s. caught-Said handler (h.said s) k }

  pub if-Speaks :
      {A : Type 0} {done : A → Bool} (b : Bool) (m n : Generator S E A)
      → Speaks done m
      → Speaks done n
      → Speaks done (if b then m else n)
  if-Speaks true m n h k = h
  if-Speaks false m n h k = k

  -- What the loop makes of it: it reads a phase that returned as its completion and all its events,
  -- and one that raised as that exception, before any completion.
  pub data Served : List E × Result (Unit {0}) × S → Type 0 where
    completed :
        (events : List E) (c : E) (s : S)
        → is_completion c ≡ true
        → consume_strict is_completion (streamed (events, ok tt, s)) ≡ ok (c, events)
        → Served (events, ok tt, s)
    failed :
        (events : List E) (e : Error) (s : S)
        → has_none is_completion events ≡ true
        → consume_strict is_completion (streamed (events, raise e, s)) ≡ raise e
        → Served (events, raise e, s)

  pub Said-Served : {r : List E × Result (Unit {0}) × S} → Said (λ _. true) r → Served r
  unfolding consume_strict iterate_strict
  Said-Served (raised events e s h) =
      failed events e s h (rw (strict_from-failed is_completion none events e h) refl)
  Said-Served (silent events a s h d) = absurd (false≢true (sym d))
  Said-Served (spoken before c a s h i d) = completed (before ++ c ∷ []) c s i (
      (consume_strict_iff is_completion _ c _).1 (
        record { before = before; items = refl; no_earlier = h; completes = i; no_failure = refl },
        refl,
      ))
