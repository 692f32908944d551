-- ===== src/Loop/Strict.antt =====
-- What the strict reading of a stream accepts, and how it fails.
use mathlib.Core.Bool.{false≢true}
use coresmos.Prelude.{
  ◌≡◌, ◌↔◌, refl, ap, ◌∙◌, sym, if◌then◌else◌, Bool, true, false, Option, none, some, List, [], ◌∷◌,
  ◌++◌, inl, inr, Bool-cases,
}
use coresmos.Errors.{Error, Result, ok, raise, Result-cases, completion_protocol_error}
use coresmos.Loop.Streams.{
  ManagedEventStream, is_cancelled, ending_error, finish, strict_from, iterate_strict,
  last_completion, consume_strict, has_none, IsComplete, collected,
}

raised_same : (d e : Error) → ◌≡◌ {A = Result (Unit {0})} (raise d) (raise e) → d ≡ e
raised_same d e h = cc

pub same_error : (e : Error) → (if is_cancelled e then e else e) ≡ e
same_error e = elim (Bool-cases (is_cancelled e)) [ inl c ↦ rw c refl | inr c ↦ rw c refl ]

pub has_none-append :
    {E : Type 0} (is_completion : E → Bool) (xs ys : List E)
    → has_none is_completion xs ≡ true
    → has_none is_completion ys ≡ true
    → has_none is_completion (xs ++ ys) ≡ true
unfolding has_none
has_none-append is_completion [] ys h k = k
has_none-append is_completion (x ∷ xs) ys h k = elim (Bool-cases (is_completion x)) [
  | inl e ↦ absurd (false≢true (rw e at h))
  | inr e ↦ rw e (has_none-append is_completion xs ys (rw e at h) k)
]

module _ {A : Type 0} (is_completion : A → Bool) where
  abbrev stream_of : List A → Option Error → ManagedEventStream A
  stream_of items failure = record { items = items; failure = failure }

  -- A stream that was read to its end without an exception.
  record Accepted (items : List A) (failure : Option Error) (yielded : List A) : Type 0 where
    completion : A
    complete : IsComplete is_completion (stream_of items failure) completion
    all : yielded ≡ items

  at_completion :
      (x : A) (xs : List A) (failure : Option Error)
      → is_completion x ≡ true
      → (strict_from is_completion (some x) (some x) xs failure).1 ≡ ok tt
      → Accepted (x ∷ xs) failure (x ∷ (strict_from is_completion (some x) (some x) xs failure).0)
  unfolding strict_from finish ending_error has_none
  at_completion x [] none e h = record {
    completion = x;
    complete = record {
      before = [];
      items = refl;
      no_earlier = refl;
      completes = e;
      no_failure = refl;
    };
    all = refl;
  }
  at_completion x [] (some error) e h = cc
  at_completion x (y ∷ ys) failure e h = cc

  strict_from-Accepted :
      (last : Option A) (items : List A) (failure : Option Error)
      → (strict_from is_completion none last items failure).1 ≡ ok tt
      → Accepted items failure (strict_from is_completion none last items failure).0
  unfolding strict_from finish has_none ending_error
  strict_from-Accepted last [] none h = cc
  strict_from-Accepted last [] (some e) h = cc
  strict_from-Accepted last (x ∷ xs) failure h = elim (Bool-cases (is_completion x)) [
    | inl e ↦ rw e (at_completion x xs failure e (rw e at h))
    | inr e ↦ rw e (later x e (strict_from-Accepted (some x) xs failure (rw e at h)))
  ]
    where
      later :
          {yielded : List A} (x : A)
          → is_completion x ≡ false
          → Accepted xs failure yielded
          → Accepted (x ∷ xs) failure (x ∷ yielded)
      later x e a = record {
        completion = a.completion;
        complete = record {
          before = x ∷ a.complete.before;
          items = ap (λ zs. x ∷ zs) a.complete.items;
          no_earlier = rw e a.complete.no_earlier;
          completes = a.complete.completes;
          no_failure = a.complete.no_failure;
        };
        all = ap (λ zs. x ∷ zs) a.all;
      }

  strict_from_complete :
      (last : Option A) (before : List A) (c : A)
      → has_none is_completion before ≡ true
      → is_completion c ≡ true
      → strict_from is_completion none last (before ++ c ∷ []) none ≡ (before ++ c ∷ [], ok tt)
  unfolding strict_from finish has_none
  strict_from_complete last [] c h e = rw (e, strict_from, finish) (rw e refl)
  strict_from_complete last (x ∷ xs) c h e = elim (Bool-cases (is_completion x)) [
    | inl e' ↦ absurd (false≢true (rw e' at h))
    | inr e' ↦ rw (e', strict_from_complete (some x) xs c (rw e' at h) e) refl
  ]

  last_completion-append :
      (before : List A) (c : A)
      → is_completion c ≡ true
      → last_completion is_completion (before ++ c ∷ []) ≡ some c
  unfolding last_completion
  last_completion-append [] c e = rw e
  last_completion-append (x ∷ xs) c e = rw (last_completion-append xs c e)

  collected-some :
      (items : List A) (c : A)
      → last_completion is_completion items ≡ some c
      → collected is_completion items (ok tt) ≡ ok (c, items)
  collected-some items c e = rw (e, collected)

  collected-Accepted :
      {all yielded : List A} {failure : Option Error} {end : Result (Unit {0})} (completion : A)
      (items : List A)
      → end ≡ ok tt
      → Accepted all failure yielded
      → collected is_completion yielded end ≡ ok (completion, items)
      → IsComplete is_completion (stream_of all failure) completion × (items ≡ all)
  unfolding last_completion
  collected-Accepted {all} {yielded} {failure} completion items done a h =
      let found : last_completion is_completion yielded ≡ some a.completion =
        rw (a.all, a.complete.items)
          (last_completion-append a.complete.before a.completion a.complete.completes) in
      let same =
        sym (collected-some yielded a.completion found)
        ∙ (ap (collected is_completion yielded) (sym done) ∙ h) in
      (
        rw (← same_completion a.completion yielded same) a.complete,
        sym (same_items a.completion yielded same) ∙ a.all,
      )
    where
      same_completion :
          (c : A) (xs : List A)
          → ◌≡◌ {A = Result (A × List A)} (ok (c, xs)) (ok (completion, items))
          → c ≡ completion
      same_completion c xs p = cc

      same_items :
          (c : A) (xs : List A)
          → ◌≡◌ {A = Result (A × List A)} (ok (c, xs)) (ok (completion, items))
          → xs ≡ items
      same_items c xs p = cc

  -- Reading a stream strictly gives a completion and the items exactly when the items are those of the
  -- stream, the stream ended without an exception, the completion is the last item, and no item
  -- before it is one.
  pub consume_strict_iff :
      (stream : ManagedEventStream A) (completion : A) (items : List A)
      → (consume_strict is_completion stream ≡ ok (completion, items))
        ↔ (IsComplete is_completion stream completion × (items ≡ stream.items))
  unfolding consume_strict iterate_strict
  consume_strict_iff stream completion items = (forth, back)
    where
      back :
          IsComplete is_completion stream completion × (items ≡ stream.items)
          → consume_strict is_completion stream ≡ ok (completion, items)
      back (c, e) =
          rw
            (
              e,
              c.no_failure,
              c.items,
              strict_from_complete none c.before completion c.no_earlier c.completes,
            )
            (collected-some (c.before ++ completion ∷ []) completion
              (last_completion-append c.before completion c.completes))

      forth :
          consume_strict is_completion stream ≡ ok (completion, items)
          → IsComplete is_completion stream completion × (items ≡ stream.items)
      forth h =
          elim (Result-cases (strict_from is_completion none none stream.items stream.failure).1) [
            | inl (_, e) ↦
                collected-Accepted completion items e
                  (strict_from-Accepted none stream.items stream.failure e) h
            | inr (x, e) ↦ absurd (cc (rw e at h))
          ]

  -- Why a strict reading failed, and what it had yielded.
  pub data Failed (failure : Option Error) : List A → Error → Type 0 where
    protocol : (yielded : List A) → Failed failure yielded completion_protocol_error
    cancelled :
        (yielded : List A) (e : Error)
        → is_cancelled e ≡ true
        → failure ≡ some e
        → Failed failure yielded e
    passed :
        (yielded : List A) (e : Error)
        → has_none is_completion yielded ≡ true
        → failure ≡ some e
        → Failed failure yielded e

  end_Failed : (yielded : List A) (e : Error) → Failed (some e) yielded (ending_error true e)
  unfolding ending_error
  end_Failed yielded e = elim (Bool-cases (is_cancelled e)) [
    | inl c ↦ rw c (cancelled yielded e c refl)
    | inr c ↦ rw c (protocol yielded)
  ]

  after_completion-Failed :
      (x : A) (xs : List A) (failure : Option Error) (e : Error)
      → is_completion x ≡ true
      → (strict_from is_completion (some x) (some x) xs failure).1 ≡ raise e
      → Failed failure (x ∷ (strict_from is_completion (some x) (some x) xs failure).0) e
  unfolding strict_from finish
  after_completion-Failed x [] none e c h = absurd (cc (rw c at h))
  after_completion-Failed x [] (some error) e c h =
      rw (← raised_same (ending_error true error) e h) (end_Failed (x ∷ []) error)
  after_completion-Failed x (y ∷ ys) failure e c h =
      rw (← raised_same completion_protocol_error e h) (protocol (x ∷ []))

  -- An item that is no completion changes nothing.
  Failed-later :
      {failure : Option Error} {yielded : List A} {e : Error} (x : A)
      → is_completion x ≡ false
      → Failed failure yielded e
      → Failed failure (x ∷ yielded) e
  unfolding has_none
  Failed-later x c (protocol yielded) = protocol (x ∷ yielded)
  Failed-later x c (cancelled yielded e s f) = cancelled (x ∷ yielded) e s f
  Failed-later x c (passed yielded e s f) = passed (x ∷ yielded) e (rw c s) f

  strict_from-Failed :
      (last : Option A) (items : List A) (failure : Option Error) (e : Error)
      → (strict_from is_completion none last items failure).1 ≡ raise e
      → Failed failure (strict_from is_completion none last items failure).0 e
  unfolding strict_from finish ending_error has_none
  strict_from-Failed last [] none e h =
      rw (← raised_same completion_protocol_error e h) (protocol [])
  strict_from-Failed last [] (some error) e h =
      rw (← raised_same error e (rw (same_error error) at h)) (passed [] error refl refl)
  strict_from-Failed last (x ∷ xs) failure e h = elim (Bool-cases (is_completion x)) [
    | inl c ↦ rw c (after_completion-Failed x xs failure e c (rw c at h))
    | inr c ↦ rw c (Failed-later x c (strict_from-Failed (some x) xs failure e (rw c at h)))
  ]

  -- When the strict reading raises, it is a protocol error, or the task was cancelled, or it is the
  -- exception of the stream itself, and then no completion had been yielded.
  pub iterate_strict-Failed :
      (stream : ManagedEventStream A) (e : Error)
      → (iterate_strict is_completion stream).1 ≡ raise e
      → Failed stream.failure (iterate_strict is_completion stream).0 e
  unfolding iterate_strict
  iterate_strict-Failed stream e h = strict_from-Failed none stream.items stream.failure e h
