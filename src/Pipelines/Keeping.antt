-- ===== src/Pipelines/Keeping.antt =====
-- Generators on a run's session that keep its transcript valid and take no fact back.
use coresmos.Prelude.{ℕ}
use coresmos.Errors.{Error, Result}
use coresmos.Recording.Store.{MemoryTranscript, Exec}
use coresmos.Recording.Facts.{IsValid}
use coresmos.Recording.Writing.{Grows, Grows-refl, Grows-trans}
use coresmos.Recording.Safe.{IsSafe}
use coresmos.Recording.Histories.{Ends-Grows}
use coresmos.Generators.{
  Generator, ◌>>=◌, return, throw, yield, call, Relates, >>=-Relates, return-Relates, throw-Relates,
  yield-Relates,
}
use coresmos.Pipelines.Session.{RunSession, Control, ask, recording, reserving}

-- A valid transcript of the first session stays so, and holds what it held.
abbrev pub Follows : RunSession → RunSession → Type 0
Follows s s' = IsValid s.transcript → Grows s.transcript s'.transcript

Follows-trans : (a b c : RunSession) → Follows a b → Follows b c → Follows a c
Follows-trans a b c f g v = let h = f v in Grows-trans h (g h.valid)

pub Follows-refl : (s : RunSession) → Follows s s
Follows-refl s v = Grows-refl v

abbrev pub IsKeeping : {E A : Type 0} → Generator RunSession E A → Type 0
IsKeeping m = Relates Follows m

module _ {E : Type 0} where
  pub return-IsKeeping : {A : Type 0} (a : A) → IsKeeping (return {E = E} a)
  return-IsKeeping a = return-Relates Follows-refl Follows-trans a

  pub throw-IsKeeping : {A : Type 0} (e : Error) → IsKeeping (throw {E = E} {A = A} e)
  throw-IsKeeping e = throw-Relates Follows-refl Follows-trans e

  pub yield-IsKeeping : (event : E) → IsKeeping (yield event)
  yield-IsKeeping event = yield-Relates Follows-refl Follows-trans event

  pub >>=-IsKeeping :
      {A B : Type 0} {m : Generator RunSession E A} {rest : A → Generator RunSession E B}
      → IsKeeping m
      → ((a : A) → IsKeeping (rest a))
      → IsKeeping (m >>= rest)
  >>=-IsKeeping = >>=-Relates Follows-refl Follows-trans

  pub call-IsKeeping :
      {A : Type 0} (f : RunSession → Result A × RunSession)
      → ((s : RunSession) → Follows s (f s).1)
      → IsKeeping (call {E = E} f)
  unfolding call
  call-IsKeeping f h = record { ends = h }

  pub ask-IsKeeping : (control : Control) → IsKeeping (ask {E = E} control)
  unfolding ask
  ask-IsKeeping control = call-IsKeeping _ (λ s. Follows-refl s)

  pub reserving-IsKeeping : (tokens : ℕ) → IsKeeping (reserving {E = E} tokens)
  unfolding reserving
  reserving-IsKeeping tokens = call-IsKeeping _ (λ s. Follows-refl s)

  pub recording-IsKeeping :
      {A : Type 0} {operation : Exec A}
      → ((t : MemoryTranscript) → IsValid t → IsSafe t (operation t))
      → IsKeeping (recording {E = E} operation)
  unfolding recording
  recording-IsKeeping safe = call-IsKeeping _ (λ s v. Ends-Grows v (safe s.transcript v))
