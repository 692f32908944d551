-- ===== src/Context/Trim/Rounds.antt =====
-- One round of the trimmer on a paired view: what the deleted span takes with it.
use mathlib.Core.List.Sublist
use mathlib.Core.List.{Sublist, sublist-append_right, get_last?, append-nil}
use coresmos.Prelude.{
  ℕ, ◌≤◌, ◌<◌, ◌≡◌, ◌≢◌, refl, sym, ◌∙◌, ap, true, false, Option, none, some, List, [], ◌∷◌, ◌++◌,
  All, length, length-append, arith, if◌then◌else◌, Text,
}
use coresmos.Errors.{ok}
use coresmos.Json.{Fields}
use coresmos.Contracts.Messages.{Message}
use coresmos.Context.Pairing.{is_tool, is_calling}
use coresmos.Context.Pairing.Spec.{IsResult, Answers, IsPaired, done, plain, group, IsPaired-append}
use coresmos.Context.Pairing.Complete.{Answers-nonempty}
use coresmos.Context.Budget.{TokenEstimator, estimate_messages}
use coresmos.Context.Budget.Estimates.{estimate_messages-drop}
use coresmos.Context.Trim.{is_system, oldest_span, delete_span}
use coresmos.Context.Trim.Spans.{
  NotCalling, IsSystem, GroupSpan, TurnSpan, ToolSpan, PlainSpan, all_but_last,
  oldest_tool_group-ToolSpan, oldest_plain_turn-PlainSpan,
}

-- The system messages of a view.
unfoldable pub systems : List Message → List Message
systems [] = []
systems (m ∷ ms) = let rest = systems ms in if is_system m then m ∷ rest else rest

pub systems-append : (xs ys : List Message) → systems (xs ++ ys) ≡ systems xs ++ systems ys
unfolding systems
systems-append [] ys = refl
systems-append (x ∷ xs) ys = ground (arith, systems-append xs ys)

systems-results : (rs : List Message) → All IsResult rs → systems rs ≡ []
unfolding systems
systems-results [] h = refl
systems-results (r ∷ rs) h = ground (arith, h.0.tool, systems-results rs h.1)

calling-not_system : (m : Message) → is_calling m ≡ true → is_system m ≡ false
calling-not_system m h = ground arith

abbrev pub IsPlain : Message → Type 0
IsPlain m = (is_calling m ≡ false) × (is_tool m ≡ false)

IsPlain-All : {ms : List Message} → IsPaired ms → All NotCalling ms → All IsPlain ms
IsPlain-All done h = tt
IsPlain-All (plain m c t p) h = ((c, t), IsPlain-All p h.1)
IsPlain-All (group m rs ms a p e) h = cc (a.calling, h.0)

pub paired_all : (ms : List Message) → All IsPlain ms → IsPaired ms
paired_all [] h = done
paired_all (m ∷ ms) h = plain m h.0.0 h.0.1 (paired_all ms h.1)

skip_one :
    (xs : List Message) (m : Message) (ys : List Message)
    → All IsPlain (xs ++ (m ∷ ys))
    → All IsPlain (xs ++ ys)
skip_one [] m ys h = h.1
skip_one (x ∷ xs) m ys h = (h.0, skip_one xs m ys h.1)

-- The last message, where it is plain, stays the last.
pub record KeepsLast (out ms : List Message) : Type 0 where
  pub at :
      (m : Message)
      → get_last? ms ≡ some m
      → is_calling m ≡ false
      → is_tool m ≡ false
      → get_last? out ≡ some m

last-append :
    (xs : List Message) (y : Message) (ys : List Message)
    → get_last? (xs ++ (y ∷ ys)) ≡ get_last? (y ∷ ys)
last-append [] y ys = refl
last-append (x ∷ []) y ys = refl
last-append (x ∷ x' ∷ xs) y ys = last-append (x' ∷ xs) y ys

last_result :
    (m r : Message) (rs : List Message)
    → All IsResult (r ∷ rs)
    → get_last? (r ∷ rs) ≡ some m
    → is_tool m ≡ true
last_result m r [] h e = ground (arith, h.0.tool)
last_result m r (r' ∷ rs) h e = last_result m r' rs h.1 e

GroupSpan-KeepsLast :
    (xs : List Message) (call : Message) (rs ys : List Message)
    → Answers call rs
    → KeepsLast (xs ++ ys) (xs ++ (call ∷ (rs ++ ys)))
GroupSpan-KeepsLast xs call [] ys a = absurd (Answers-nonempty call a)
GroupSpan-KeepsLast xs call (r ∷ rs) [] a = record {
  at = λ m e c t. absurd (
      cc (
        t,
        last_result m r rs a.each (rw (last-append xs call (r ∷ (rs ++ [])), append-nil) at e),
      ));
}
GroupSpan-KeepsLast xs call (r ∷ rs) (y ∷ ys) a = record {
  at = λ m e c t. rw last-append (rw (last-append, last-append (call ∷ r ∷ rs) y ys) at e);
}

TurnSpan-KeepsLast :
    (xs : List Message) (m : Message) (ys : List Message)
    → ys ≢ []
    → KeepsLast (xs ++ ys) (xs ++ (m ∷ ys))
TurnSpan-KeepsLast xs m [] h = absurd (h refl)
TurnSpan-KeepsLast xs m (y ∷ ys) h = record {
  at = λ l e c t. last-append xs y ys ∙ (sym (last-append xs m (y ∷ ys)) ∙ e);
}

-- What deleting a span keeps.
pub record Shrinks (ms : List Message) (span : ℕ × ℕ) : Type 0 where
  pub paired : IsPaired (delete_span span ms)
  pub sub : Sublist (delete_span span ms) ms
  pub systems_kept : systems (delete_span span ms) ≡ systems ms
  pub last_kept : KeepsLast (delete_span span ms) ms
  pub before : List Message
  pub unit : List Message
  pub after : List Message
  pub split : ms ≡ before ++ (unit ++ after)
  pub left : delete_span span ms ≡ before ++ after
  pub nonempty : 0 < length unit

unit-sublist : (xs us ys : List Message) → Sublist (xs ++ ys) (xs ++ (us ++ ys))
unit-sublist xs us ys = Sublist.append (Sublist.refl xs) (sublist-append_right us ys)

unit-systems :
    (xs us ys : List Message) → systems us ≡ [] → systems (xs ++ ys) ≡ systems (xs ++ (us ++ ys))
unit-systems xs us ys h = simp (systems-append, h)

GroupSpan-Shrinks : {ms : List Message} {span : ℕ × ℕ} → GroupSpan ms span → Shrinks ms span
unfolding systems
GroupSpan-Shrinks g =
    let unit = g.call ∷ g.results in
    record {
      paired = rw g.left (IsPaired-append g.front g.back);
      sub = rw (g.left, g.split) (unit-sublist g.before unit g.after);
      systems_kept =
          rw (g.left, g.split)
            (unit-systems g.before unit g.after (
              rw (calling-not_system g.call g.whole.calling)
                (systems-results g.results g.whole.each)));
      last_kept =
          rw (g.left, g.split) (GroupSpan-KeepsLast g.before g.call g.results g.after g.whole);
      before = g.before;
      unit = unit;
      after = g.after;
      split = g.split;
      left = g.left;
      nonempty = omega arith;
    }

TurnSpan-Shrinks :
    {ms : List Message} {span : ℕ × ℕ}
    → IsPaired ms
    → All NotCalling ms
    → TurnSpan ms span
    → Shrinks ms span
unfolding systems
TurnSpan-Shrinks p c g =
    let unit = g.turn ∷ [] in
    record {
      paired =
          rw g.left
            (paired_all _ (skip_one g.before g.turn g.after (rw g.split at (IsPlain-All p c))));
      sub = rw (g.left, g.split) (unit-sublist g.before unit g.after);
      systems_kept = rw (g.left, g.split) (unit-systems g.before unit g.after (rw g.not_system));
      last_kept = rw (g.left, g.split) (TurnSpan-KeepsLast g.before g.turn g.after g.not_last);
      before = g.before;
      unit = unit;
      after = g.after;
      split = g.split;
      left = g.left;
      nonempty = omega arith;
    }

-- A round deletes a span, or only system messages stand before the last message and no call is left.
pub data SpanCase (ms : List Message) (o : Option (ℕ × ℕ)) : Type 0 where
  stuck : o ≡ none → All NotCalling ms → All IsSystem (all_but_last ms) → SpanCase ms o
  found : (span : ℕ × ℕ) → o ≡ some span → Shrinks ms span → SpanCase ms o

SpanCase-of :
    {ms : List Message} {o o' : Option (ℕ × ℕ)}
    → IsPaired ms
    → ToolSpan ms o
    → PlainSpan ms o'
    → SpanCase ms (elim o [ none ↦ o' | some span ↦ some span ])
SpanCase-of p (ToolSpan.present span e g) q = found span (rw e) (GroupSpan-Shrinks g)
SpanCase-of p (ToolSpan.absent e c) (PlainSpan.absent e' s) = stuck (rw e e') c s
SpanCase-of p (ToolSpan.absent e c) (PlainSpan.present span e' g) =
    found span (rw e e') (TurnSpan-Shrinks p c g)

pub oldest_span-SpanCase : {ms : List Message} → IsPaired ms → SpanCase ms (oldest_span ms)
unfolding oldest_span
oldest_span-SpanCase {ms} p =
    SpanCase-of p (oldest_tool_group-ToolSpan p) (oldest_plain_turn-PlainSpan ms)

module _ (ms : List Message) (span : ℕ × ℕ) (s : Shrinks ms span) where
  pub length-delete_span : length (delete_span span ms) < length ms
  length-delete_span = rw s.left (
      omega (
        arith,
        s.nonempty,
        ap (λ (l : List Message). length l) s.split,
        length-append s.before s.after,
        length-append s.before (s.unit ++ s.after),
        length-append s.unit s.after,
      ))

  pub estimate-delete_span :
      (str_dict : Fields → Text) (estimator : TokenEstimator) (k n : ℕ)
      → estimate_messages str_dict estimator k ms ≡ ok n
      → (n' : ℕ) × (estimate_messages str_dict estimator k (delete_span span ms) ≡ ok n') × (n' ≤ n)
  estimate-delete_span str_dict estimator k n h =
      rw s.left
        (estimate_messages-drop str_dict estimator k n s.before s.unit s.after (rw s.split at h))
