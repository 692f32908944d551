-- ===== src/Context/Trim/Spans.antt =====
-- The span that a round of the trimmer deletes from a paired view.
use mathlib.Core.Option
use coresmos.Prelude.{
  ℕ, suc, ◌≡◌, ◌≢◌, refl, ap, true, false, Option, none, some, List, [], ◌∷◌, ◌++◌, All, length,
  drop-length-append, arith, Bool-cases, inl, inr,
}
use coresmos.Contracts.Messages.{Message}
use coresmos.Context.Pairing.{is_tool, is_calling}
use coresmos.Context.Pairing.Spec.{Answers, IsPaired, done, plain, group}
use coresmos.Context.Pairing.Complete.{Answers-nonempty}
use coresmos.Context.Groups.Units.{run_length-group}
use coresmos.Context.Trim.{is_system, shift, oldest_tool_group, oldest_plain_turn, delete_span}

abbrev pub NotCalling : Message → Type 0
NotCalling m = is_calling m ≡ false

abbrev pub IsSystem : Message → Type 0
IsSystem m = is_system m ≡ true

-- The oldest call, with all of its results.
pub record GroupSpan (ms : List Message) (span : ℕ × ℕ) : Type 0 where
  pub before : List Message
  pub call : Message
  pub results : List Message
  pub after : List Message
  pub split : ms ≡ before ++ (call ∷ (results ++ after))
  pub left : delete_span span ms ≡ before ++ after
  pub whole : Answers call results
  pub oldest : All NotCalling before
  pub front : IsPaired before
  pub back : IsPaired after

-- The oldest turn that is not a system message, where no call is left; it is not the last message.
pub record TurnSpan (ms : List Message) (span : ℕ × ℕ) : Type 0 where
  pub before : List Message
  pub turn : Message
  pub after : List Message
  pub split : ms ≡ before ++ (turn ∷ after)
  pub left : delete_span span ms ≡ before ++ after
  pub not_system : is_system turn ≡ false
  pub oldest : All IsSystem before
  pub not_last : after ≢ []

pub data ToolSpan (ms : List Message) (o : Option (ℕ × ℕ)) : Type 0 where
  absent : o ≡ none → All NotCalling ms → ToolSpan ms o
  present : (span : ℕ × ℕ) → o ≡ some span → GroupSpan ms span → ToolSpan ms o

GroupSpan-cons :
    (m : Message) {ms : List Message} {span : ℕ × ℕ}
    → is_calling m ≡ false
    → is_tool m ≡ false
    → GroupSpan ms span
    → GroupSpan (m ∷ ms) (shift span)
GroupSpan-cons m c t g = record {
  before = m ∷ g.before;
  call = g.call;
  results = g.results;
  after = g.after;
  split = ap (◌∷◌ m) g.split;
  left = ap (◌∷◌ m) g.left;
  whole = g.whole;
  oldest = (c, g.oldest);
  front = plain m c t g.front;
  back = g.back;
}

ToolSpan-cons :
    (m : Message) {ms : List Message} {o : Option (ℕ × ℕ)}
    → is_calling m ≡ false
    → is_tool m ≡ false
    → ToolSpan ms o
    → ToolSpan (m ∷ ms) (Option.map shift o)
ToolSpan-cons m c t (absent e h) = absent (rw e) (c, h)
ToolSpan-cons m c t (present span e g) = present (shift span) (rw e) (GroupSpan-cons m c t g)

pub oldest_tool_group-ToolSpan :
    {ms : List Message} → IsPaired ms → ToolSpan ms (oldest_tool_group ms)
unfolding oldest_tool_group
oldest_tool_group-ToolSpan done = absent refl tt
oldest_tool_group-ToolSpan (plain m c t p) =
    rw c (ToolSpan-cons m c t (oldest_tool_group-ToolSpan p))
oldest_tool_group-ToolSpan (group m [] ms a p e) = absurd (Answers-nonempty m a)
oldest_tool_group-ToolSpan (group m (r ∷ rs) ms {all} a p e) =
    present (0, suc (suc (length rs)))
      (rw (e, a.calling, run_length-group m (r ∷ rs) ms a p) (ground arith))
      (record {
        before = [];
        call = m;
        results = r ∷ rs;
        after = ms;
        split = ap (◌∷◌ m) e;
        left = rw e (drop-length-append rs ms);
        whole = a;
        oldest = tt;
        front = done;
        back = p;
      })

-- Everything before the last message.
abbrev pub all_but_last : List Message → List Message
all_but_last [] = []
all_but_last (m ∷ []) = []
all_but_last (m ∷ m' ∷ ms) = m ∷ all_but_last (m' ∷ ms)

pub data PlainSpan (ms : List Message) (o : Option (ℕ × ℕ)) : Type 0 where
  absent : o ≡ none → All IsSystem (all_but_last ms) → PlainSpan ms o
  present : (span : ℕ × ℕ) → o ≡ some span → TurnSpan ms span → PlainSpan ms o

TurnSpan-cons :
    (m : Message) {ms : List Message} {span : ℕ × ℕ}
    → IsSystem m
    → TurnSpan ms span
    → TurnSpan (m ∷ ms) (shift span)
TurnSpan-cons m s g = record {
  before = m ∷ g.before;
  turn = g.turn;
  after = g.after;
  split = ap (◌∷◌ m) g.split;
  left = ap (◌∷◌ m) g.left;
  not_system = g.not_system;
  oldest = (s, g.oldest);
  not_last = g.not_last;
}

PlainSpan-cons :
    (m m' : Message) {ms : List Message} {o : Option (ℕ × ℕ)}
    → IsSystem m
    → PlainSpan (m' ∷ ms) o
    → PlainSpan (m ∷ m' ∷ ms) (Option.map shift o)
PlainSpan-cons m m' s (absent e h) = absent (rw e) (s, h)
PlainSpan-cons m m' s (present span e g) = present (shift span) (rw e) (TurnSpan-cons m s g)

pub oldest_plain_turn-PlainSpan : (ms : List Message) → PlainSpan ms (oldest_plain_turn ms)
unfolding oldest_plain_turn
oldest_plain_turn-PlainSpan [] = absent refl tt
oldest_plain_turn-PlainSpan (m ∷ []) = absent refl tt
oldest_plain_turn-PlainSpan (m ∷ m' ∷ ms) = elim (Bool-cases (is_system m)) [
  | inl s ↦ rw s (PlainSpan-cons m m' s (oldest_plain_turn-PlainSpan (m' ∷ ms)))
  | inr s ↦ rw s (
      present (0, 1) refl
        (record {
          before = [];
          turn = m;
          after = m' ∷ ms;
          split = refl;
          left = refl;
          not_system = s;
          oldest = tt;
          not_last = cc;
        }))
]
