-- ===== src/Generators.antt =====
-- An asynchronous generator over a state: what it yields, how it ends, and the state that it leaves,
-- also when it raises.
pub mod Returning
pub mod Reaching
use coresmos.Prelude.{Bool, true, false, if◌then◌else◌, ◌≡◌, refl, List, [], ◌∷◌, ◌++◌}
use coresmos.Errors.{Error, Result, ok, raise}

abbrev pub Generator : Type 0 → Type 0 → Type 0 → Type 0
Generator S E A = S → List E × Result A × S

module _ {S E : Type 0} where
  abbrev pub resume :
      {A B : Type 0} → List E × Result A × S → (A → Generator S E B) → List E × Result B × S
  resume (events, raise e, s) rest = (events, raise e, s)
  resume (events, ok a, s) rest = (events ++ (rest a s).0, (rest a s).1, (rest a s).2)

  infixl 5 ◌>>=◌ ◌>>◌
  unfoldable pub ◌>>=◌ : {A B : Type 0} → Generator S E A → (A → Generator S E B) → Generator S E B
  ◌>>=◌ m rest s = resume (m s) rest

  abbrev pub ◌>>◌ : {B : Type 0} → Generator S E (Unit {0}) → Generator S E B → Generator S E B
  m >> rest = m >>= λ _. rest

  unfoldable pub return : {A : Type 0} → A → Generator S E A
  return a s = ([], ok a, s)

  unfoldable pub throw : {A : Type 0} → Error → Generator S E A
  throw e s = ([], raise e, s)

  unfoldable pub yield : E → Generator S E (Unit {0})
  yield event s = (event ∷ [], ok tt, s)

  -- A call that yields nothing.
  unfoldable pub call : {A : Type 0} → (S → Result A × S) → Generator S E A
  call f s = ([], (f s).0, (f s).1)

  unfoldable pub check : {A : Type 0} → Result A → Generator S E A
  check r s = ([], r, s)

  unfoldable pub modify : (S → S) → Generator S E (Unit {0})
  modify f s = ([], ok tt, f s)

  -- A generator that is run for its effect.
  abbrev pub silently : {A : Type 0} → Generator S E A → S → Result A × S
  silently m s = ((m s).1, (m s).2)

  abbrev pub caught :
      {A : Type 0} → List E × Result A × S → (Error → Generator S E A) → List E × Result A × S
  caught (events, ok a, s) handler = (events, ok a, s)
  caught (events, raise e, s) handler =
      (events ++ (handler e s).0, (handler e s).1, (handler e s).2)

  -- `try: m; except ...: handler`
  unfoldable pub catch :
      {A : Type 0} → Generator S E A → (Error → Generator S E A) → Generator S E A
  catch m handler s = caught (m s) handler

  -- The states before and after are related, whatever is yielded and however the generator ends.
  pub record Relates (R : S → S → Type 0) {A : Type 0} (m : Generator S E A) : Type 0 where
    pub ends : (s : S) → R s (m s).2

  module _ {R : S → S → Type 0} (refl_at : (s : S) → R s s)
      (trans : (a b c : S) → R a b → R b c → R a c) where
    pub return-Relates : {A : Type 0} (a : A) → Relates R (return a)
    unfolding return
    return-Relates a = record { ends = refl_at }

    pub throw-Relates : {A : Type 0} (e : Error) → Relates R (throw {A = A} e)
    unfolding throw
    throw-Relates e = record { ends = refl_at }

    pub yield-Relates : (event : E) → Relates R (yield event)
    unfolding yield
    yield-Relates event = record { ends = refl_at }

    resume-Relates :
        {A B : Type 0} {s : S} (r : List E × Result A × S) (rest : A → Generator S E B)
        → R s r.2
        → ((a : A) → Relates R (rest a))
        → R s (resume r rest).2
    resume-Relates (events, raise e, s') rest h k = h
    resume-Relates {s} (events, ok a, s') rest h k = trans s s' _ h ((k a).ends s')

    pub >>=-Relates :
        {A B : Type 0} {m : Generator S E A} {rest : A → Generator S E B}
        → Relates R m
        → ((a : A) → Relates R (rest a))
        → Relates R (m >>= rest)
    unfolding ◌>>=◌
    >>=-Relates {m} {rest} h k = record { ends = λ s. resume-Relates (m s) rest (h.ends s) k }

    caught-Relates :
        {A : Type 0} {s : S} (r : List E × Result A × S) (handler : Error → Generator S E A)
        → R s r.2
        → ((e : Error) → Relates R (handler e))
        → R s (caught r handler).2
    caught-Relates (events, ok a, s') handler h k = h
    caught-Relates {s} (events, raise e, s') handler h k = trans s s' _ h ((k e).ends s')

    pub catch-Relates :
        {A : Type 0} {m : Generator S E A} {handler : Error → Generator S E A}
        → Relates R m
        → ((e : Error) → Relates R (handler e))
        → Relates R (catch m handler)
    unfolding catch
    catch-Relates {m} {handler} h k = record {
      ends = λ s. caught-Relates (m s) handler (h.ends s) k;
    }

  -- Both branches of a test.
  pub if-Relates :
      {R : S → S → Type 0} {A : Type 0} (b : Bool) (m n : Generator S E A)
      → Relates R m
      → Relates R n
      → Relates R (if b then m else n)
  if-Relates true m n h k = h
  if-Relates false m n h k = k
