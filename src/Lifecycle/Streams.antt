-- ===== src/Lifecycle/Streams.antt =====
-- `CallbackStream` of src/agent_runtime/lifecycle.py: a stream that closes once. What the iterator behind
-- it still has to give is part of its state; the iterator has an `aclose`, and the stream a callback.
use coresmos.Prelude.{
  ℕ, ◌+◌, ◌≤◌, ◌≡◌, refl, sym, ◌∙◌, Bool, true, false, if◌then◌else◌, Option, none, some, List, [],
  ◌∷◌, arith,
}
use mathlib.Core.Bool.{true≢false}
use coresmos.Errors.{Error, Result, ok, raise}

-- What closing the iterator raises, if it does. That it is already running is a `RuntimeError` with
-- that text; `fails` is any other exception.
pub data IteratorClose : Type 0 where
  closes_well already_running : IteratorClose
  fails : Error → IteratorClose

pub record CallbackStream (A : Type 0) : Type 0 where
  pub items : List A
  -- The exception behind the items, if there is one.
  pub failure : Option Error
  pub closing : IteratorClose
  pub closed : Bool
  pub close_count : ℕ
  -- How often the iterator was closed, and the callback called.
  pub closes : ℕ
  pub callbacks : ℕ

-- What a consumer does with a stream.
pub data Use : Type 0 where
  reads closes_it : Use

module _ {A : Type 0} where
  abbrev after_close : IteratorClose → CallbackStream A → Result (Unit {0}) × CallbackStream A
  after_close (fails e) s = (raise e, s)
  after_close _ s = (ok tt, record s { callbacks = s.callbacks + 1 })

  -- `aclose`
  unfoldable pub aclose : CallbackStream A → Result (Unit {0}) × CallbackStream A
  aclose s =
      if s.closed
      then (ok tt, s)
      else after_close s.closing
          (record s { closed = true; close_count = s.close_count + 1; closes = s.closes + 1 })

  -- What a call of `anext` gives: an item, or `none` at the end.
  abbrev at_end : Result (Unit {0}) × CallbackStream A → Result (Option A) × CallbackStream A
  at_end (raise e, s) = (raise e, s)
  at_end (ok _, s) = (ok none, s)

  -- `__anext__`, of the items and the exception that are left.
  abbrev next_item : List A → Option Error → CallbackStream A → Result (Option A) × CallbackStream A
  next_item (a ∷ items) failure s = (ok (some a), record s { items = items })
  next_item [] (some e) s = (raise e, record s { failure = none })
  next_item [] none s = at_end (aclose s)

  unfoldable pub anext : CallbackStream A → Result (Option A) × CallbackStream A
  unfolding aclose
  anext s = if s.closed then (ok none, s) else next_item s.items s.failure s

  unfoldable pub use_stream : Use → CallbackStream A → CallbackStream A
  unfolding aclose anext
  use_stream reads s = (anext s).1
  use_stream closes_it s = (aclose s).1

  unfoldable pub use_all : List Use → CallbackStream A → CallbackStream A
  unfolding use_stream
  use_all [] s = s
  use_all (u ∷ us) s = use_all us (use_stream u s)

  -- Not closed and never closed before, or closed exactly once with at most one call of the callback.
  pub data ClosesOnce (s : CallbackStream A) : Type 0 where
    still_open :
        s.closed ≡ false → s.close_count ≡ 0 → s.closes ≡ 0 → s.callbacks ≡ 0 → ClosesOnce s
    closed_once :
        s.closed ≡ true → s.close_count ≡ 1 → s.closes ≡ 1 → s.callbacks ≤ 1 → ClosesOnce s

  if-ClosesOnce :
      {B : Type 0} (b : Bool) (x y : B × CallbackStream A)
      → (b ≡ true → ClosesOnce x.1)
      → (b ≡ false → ClosesOnce y.1)
      → ClosesOnce (if b then x else y).1
  if-ClosesOnce true x y h k = h refl
  if-ClosesOnce false x y h k = k refl

  after_close-ClosesOnce :
      (e : IteratorClose) (s : CallbackStream A)
      → s.closed ≡ true
      → s.close_count ≡ 1
      → s.closes ≡ 1
      → s.callbacks ≡ 0
      → ClosesOnce (after_close e s).1
  after_close-ClosesOnce (fails e) s c n k b = closed_once c n k (omega (arith, b))
  after_close-ClosesOnce already_running s c n k b = closed_once c n k (omega (arith, b))
  after_close-ClosesOnce closes_well s c n k b = closed_once c n k (omega (arith, b))

  aclose-ClosesOnce : (s : CallbackStream A) → ClosesOnce s → ClosesOnce (aclose s).1
  unfolding aclose
  aclose-ClosesOnce s h = if-ClosesOnce s.closed _ _ (λ c. h) (λ c. closing h c)
    where
      closing :
          ClosesOnce s
          → s.closed ≡ false
          → ClosesOnce
              (after_close s.closing (record s {
                closed = true;
                close_count = s.close_count + 1;
                closes = s.closes + 1;
              })).1
      closing (closed_once c n k b) o = absurd (true≢false (sym c ∙ o))
      closing (still_open c n k b) o =
          after_close-ClosesOnce s.closing _ refl (omega (arith, n)) (omega (arith, k)) b

  at_end-ClosesOnce :
      (r : Result (Unit {0}) × CallbackStream A) → ClosesOnce r.1 → ClosesOnce (at_end r).1
  at_end-ClosesOnce (raise e, s) h = h
  at_end-ClosesOnce (ok u, s) h = h

  next_item-ClosesOnce :
      (items : List A) (failure : Option Error) (s : CallbackStream A)
      → ClosesOnce s
      → ClosesOnce (next_item items failure s).1
  next_item-ClosesOnce (a ∷ items) failure s (still_open c n k b) = still_open c n k b
  next_item-ClosesOnce (a ∷ items) failure s (closed_once c n k b) = closed_once c n k b
  next_item-ClosesOnce [] (some e) s (still_open c n k b) = still_open c n k b
  next_item-ClosesOnce [] (some e) s (closed_once c n k b) = closed_once c n k b
  next_item-ClosesOnce [] none s h = at_end-ClosesOnce (aclose s) (aclose-ClosesOnce s h)

  use_stream-ClosesOnce :
      (u : Use) (s : CallbackStream A) → ClosesOnce s → ClosesOnce (use_stream u s)
  unfolding use_stream anext
  use_stream-ClosesOnce closes_it s h = aclose-ClosesOnce s h
  use_stream-ClosesOnce reads s h =
      if-ClosesOnce s.closed _ _ (λ _. h) (λ _. next_item-ClosesOnce s.items s.failure s h)

  -- However often a stream is read and closed, and whatever its iterator raises, the iterator is closed at
  -- most once, and so is the callback called.
  pub use_all-ClosesOnce :
      (us : List Use) (s : CallbackStream A) → ClosesOnce s → ClosesOnce (use_all us s)
  unfolding use_all
  use_all-ClosesOnce [] s h = h
  use_all-ClosesOnce (u ∷ us) s h =
      use_all-ClosesOnce us (use_stream u s) (use_stream-ClosesOnce u s h)
