-- ===== src/Context/Pairing/Collecting.antt =====
-- What the loop over a group's results returns: `collect` of src/agent_runtime/context/compress.py.
use coresmos.Prelude.{
  ◌+◌, ◌≤◌, ◌<◌, ◌≡◌, refl, ap, true, Option, none, some, ◌&&◌, List, [], ◌∷◌, ◌++◌, All, count,
  elem-count, set_eq, Text, Text-discrete, truthy, arith, Bool-cases, inl, inr,
}
use coresmos.Contracts.Messages.{Message}
use coresmos.Context.Pairing.{is_tool, accepts, add_seen, Collected, collect}
use coresmos.Context.Pairing.Spec.{result_ids, occurrences, IsResult}

-- An accepted id is a text, is needed and is new.
accepts-parts :
    (needed seen : List Text) (o : Option Text)
    → accepts needed seen o ≡ true
    → (t : Text) × (o ≡ some t)
      × (truthy o ≡ true)
      × (0 < occurrences t needed)
      × (occurrences t seen ≡ 0)
unfolding accepts
accepts-parts needed seen none h = cc
accepts-parts needed seen (some []) h = cc
accepts-parts needed seen (some (c ∷ cs)) h = (
  c ∷ cs,
  refl,
  refl,
  ground (arith, elem-count Text-discrete (c ∷ cs) needed),
  ground (arith, elem-count Text-discrete (c ∷ cs) seen),
)

-- The results and the rest are the list; the results are results; the ids seen are theirs.
pub record Collects (seen : List Text) (ms : List Message) (c : Collected) : Type 0 where
  pub split : ms ≡ c.results ++ c.rest
  pub each : All IsResult c.results
  pub ids :
      (t : Text) → occurrences t c.seen ≡ occurrences t (result_ids c.results) + occurrences t seen
  pub unique : ((t : Text) → occurrences t seen ≤ 1) → (t : Text) → occurrences t c.seen ≤ 1

Collects-stop :
    (seen : List Text) (ms : List Message)
    → Collects seen ms (record { results = []; seen = seen; rest = ms })
unfolding count
Collects-stop seen ms = record { split = refl; each = tt; ids = λ t. omega arith; unique = λ h. h }

Collects-cons :
    (needed seen : List Text) (m : Message) (ms : List Message) (c : Collected)
    → (is_tool m && accepts needed seen m.tool_call_id) ≡ true
    → Collects (add_seen m.tool_call_id seen) ms c
    → Collects seen (m ∷ ms) (record c { results = m ∷ c.results })
unfolding count
Collects-cons needed seen m ms c h k =
    let (t, e, named, _, new) = accepts-parts needed seen m.tool_call_id (ground arith) in
    record {
      split = ap (◌∷◌ m) k.split;
      each = (record { tool = ground arith; named = named }, k.each);
      ids = λ u. ground (arith, e, k.ids u);
      unique = λ u v. k.unique (λ w. ground (arith, e, u w, new)) v;
    }

pub collect-Collects :
    (needed seen : List Text) (ms : List Message) → Collects seen ms (collect needed seen ms)
unfolding collect
collect-Collects needed seen [] = Collects-stop seen []
collect-Collects needed seen (m ∷ ms) =
    elim (Bool-cases (is_tool m && accepts needed seen m.tool_call_id)) [
      | inr stop ↦ rw stop (Collects-stop seen (m ∷ ms))
      | inl found ↦ elim (Bool-cases (set_eq Text-discrete (add_seen m.tool_call_id seen) needed)) [
        | inl full ↦
            rw (found, full)
              (Collects-cons needed seen m ms _ found
                (Collects-stop (add_seen m.tool_call_id seen) ms))
        | inr more ↦
            rw (found, more)
              (Collects-cons needed seen m ms _ found
                (collect-Collects needed (add_seen m.tool_call_id seen) ms))
      ]
    ]
