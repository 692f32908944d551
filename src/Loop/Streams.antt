-- ===== src/Loop/Streams.antt =====
-- `iterate_strict` and `consume_strict` of src/agent_runtime/core.py. A stream is the items that
-- `iterate_cancellable` gives and how it ends; what a generator yields is a list.
use coresmos.Prelude.{
  ◌≡◌, if◌then◌else◌, Bool, true, false, Option, none, some, List, [], ◌∷◌, ◌++◌,
}
use coresmos.Errors.{Error, Result, ok, raise, completion_protocol_error, task_cancelled}

pub record ManagedEventStream (A : Type 0) : Type 0 where
  pub items : List A
  -- The exception that ends the stream, if one does.
  pub failure : Option Error

-- `except asyncio.CancelledError`.
unfoldable pub is_cancelled : Error → Bool
is_cancelled task_cancelled = true
is_cancelled _ = false

-- `except CompletionProtocolError: raise`, `except CancelledError: raise`, and else an exception behind
-- the completion is a protocol error.
unfoldable pub ending_error : Bool → Error → Error
ending_error completed e =
    if is_cancelled e then e else if completed then completion_protocol_error else e

module _ {A : Type 0} (is_completion : A → Bool) where
  abbrev is_last : Option A → Bool
  is_last none = false
  is_last (some a) = is_completion a

  abbrev is_some : Option A → Bool
  is_some none = false
  is_some (some a) = true

  -- What the generator does once the stream has ended.
  unfoldable pub finish : Option A → Option A → Option Error → Result (Unit {0})
  unfolding ending_error
  finish completion last (some e) = raise (ending_error (is_some completion) e)
  finish none last none = raise completion_protocol_error
  finish (some c) last none = if is_last last then ok tt else raise completion_protocol_error

  -- The loop, from a completion and a last item on: what is yielded, and how it ends.
  unfoldable pub strict_from :
      Option A → Option A → List A → Option Error → List A × Result (Unit {0})
  unfolding finish
  strict_from completion last [] failure = ([], finish completion last failure)
  strict_from (some c) last (x ∷ xs) failure = ([], raise completion_protocol_error)
  strict_from none last (x ∷ xs) failure =
      let (yielded, end) =
        strict_from (if is_completion x then some x else none) (some x) xs failure in
      (x ∷ yielded, end)

  unfoldable pub iterate_strict : ManagedEventStream A → List A × Result (Unit {0})
  unfolding strict_from
  iterate_strict stream = strict_from none none stream.items stream.failure

  -- `if is_completion(item): completion = item`, over the items that came.
  unfoldable pub last_completion : List A → Option A
  last_completion [] = none
  last_completion (x ∷ xs) = elim (last_completion xs) [
    | some c ↦ some c
    | none ↦ if is_completion x then some x else none
  ]

  abbrev pub collected : List A → Result (Unit {0}) → Result (A × List A)
  collected items (raise e) = raise e
  collected items (ok _) = elim (last_completion items) [
    | none ↦ raise completion_protocol_error
    | some c ↦ ok (c, items)
  ]

  unfoldable pub consume_strict : ManagedEventStream A → Result (A × List A)
  unfolding iterate_strict last_completion
  consume_strict stream = let (items, end) = iterate_strict stream in collected items end

  -- No item is a completion.
  unfoldable pub has_none : List A → Bool
  has_none [] = true
  has_none (x ∷ xs) = if is_completion x then false else has_none xs

  -- A stream that kept the protocol: items that are no completions, then one completion, and the end.
  pub record IsComplete (stream : ManagedEventStream A) (completion : A) : Type 0 where
    pub before : List A
    pub items : stream.items ≡ before ++ completion ∷ []
    pub no_earlier : has_none before ≡ true
    pub completes : is_completion completion ≡ true
    pub no_failure : stream.failure ≡ none
