-- ===== src/Pipelines/Untouched.antt =====
-- Generators on a run's session that do not touch its transcript.
use coresmos.Prelude.{◌≡◌, refl, ◌∙◌}
use coresmos.Errors.{Error, Result}
use coresmos.Generators.{
  Generator, ◌>>=◌, catch, return, throw, yield, call, modify, check, Relates, >>=-Relates,
  catch-Relates, return-Relates, throw-Relates, yield-Relates,
}
use coresmos.Pipelines.Session.{RunSession, Control, ask}

abbrev pub Untouched : RunSession → RunSession → Type 0
Untouched s s' = s'.transcript ≡ s.transcript

abbrev pub LeavesTranscript : {E A : Type 0} → Generator RunSession E A → Type 0
LeavesTranscript m = Relates Untouched m

at_once : (s : RunSession) → Untouched s s
at_once s = refl

one_by_one : (a b c : RunSession) → Untouched a b → Untouched b c → Untouched a c
one_by_one a b c p q = q ∙ p

module _ {E : Type 0} where
  pub return-Leaves : {A : Type 0} (a : A) → LeavesTranscript (return {E = E} a)
  return-Leaves a = return-Relates at_once one_by_one a

  pub throw-Leaves : {A : Type 0} (e : Error) → LeavesTranscript (throw {E = E} {A = A} e)
  throw-Leaves e = throw-Relates at_once one_by_one e

  pub yield-Leaves : (event : E) → LeavesTranscript (yield event)
  yield-Leaves event = yield-Relates at_once one_by_one event

  pub >>=-Leaves :
      {A B : Type 0} {m : Generator RunSession E A} {rest : A → Generator RunSession E B}
      → LeavesTranscript m
      → ((a : A) → LeavesTranscript (rest a))
      → LeavesTranscript (m >>= rest)
  >>=-Leaves = >>=-Relates at_once one_by_one

  pub catch-Leaves :
      {A : Type 0} {m : Generator RunSession E A} {handler : Error → Generator RunSession E A}
      → LeavesTranscript m
      → ((e : Error) → LeavesTranscript (handler e))
      → LeavesTranscript (catch m handler)
  catch-Leaves = catch-Relates at_once one_by_one

  pub call-Leaves :
      {A : Type 0} (f : RunSession → Result A × RunSession)
      → ((s : RunSession) → Untouched s (f s).1)
      → LeavesTranscript (call {E = E} f)
  unfolding call
  call-Leaves f h = record { ends = h }

  pub modify-Leaves :
      (f : RunSession → RunSession)
      → ((s : RunSession) → Untouched s (f s))
      → LeavesTranscript (modify {E = E} f)
  unfolding modify
  modify-Leaves f h = record { ends = h }

  pub check-Leaves : {A : Type 0} (r : Result A) → LeavesTranscript (check {E = E} r)
  unfolding check
  check-Leaves r = record { ends = at_once }

  pub ask-Leaves : (control : Control) → LeavesTranscript (ask {E = E} control)
  unfolding ask
  ask-Leaves control = call-Leaves _ at_once
