-- ===== src/Context/Merging.antt =====
-- `merge_contributions` of src/agent_runtime/context/manager.py.
use coresmos.Prelude.{
  ltb, ◌==◌, Bool, true, false, ◌&&◌, ◌||◌, if◌then◌else◌, Option, none, some, List, [], ◌∷◌, Text,
  Text-discrete, Dict, get, put, int_eq, int_ltb,
}
use coresmos.Recording.Payloads.{same}
use coresmos.Contracts.Capabilities.{ContextContribution}

-- `<` of two `str`.
unfoldable pub text_ltb : Text → Text → Bool
text_ltb s [] = false
text_ltb [] (d ∷ ds) = true
text_ltb (c ∷ cs) (d ∷ ds) = let later = text_ltb cs ds in if c == d then later else ltb c d

-- `(item.scope, item.dedupe_key)`
pub record MergeKey : Type 0 where
  pub scope : Text
  pub dedupe_key : Text

unfoldable pub MergeKey-discrete : Discrete MergeKey
MergeKey-discrete = hlevel Text-discrete

abbrev pub merge_key : ContextContribution → MergeKey
merge_key c = record { scope = c.scope; dedupe_key = c.dedupe_key }

-- `(item.priority, item.source) > (current.priority, current.source)`
unfoldable pub outranks : ContextContribution → ContextContribution → Bool
unfolding text_ltb
outranks item current =
    int_ltb current.priority item.priority
    || (int_eq item.priority current.priority && text_ltb current.source item.source)

abbrev replaces : ContextContribution → Option ContextContribution → Bool
replaces item none = true
replaces item (some current) = outranks item current

-- The loop, from a dictionary of chosen items on.
unfoldable pub choose :
    List ContextContribution → Dict MergeKey ContextContribution → Dict MergeKey ContextContribution
unfolding outranks
choose [] chosen = chosen
choose (item ∷ items) chosen = choose items (
    if replaces item (get MergeKey-discrete (merge_key item) chosen)
    then put MergeKey-discrete (merge_key item) item chosen
    else chosen)

unfoldable pub values_of : Dict MergeKey ContextContribution → List ContextContribution
values_of [] = []
values_of ((k, c) ∷ d) = c ∷ values_of d

-- `<` of `(-priority, scope, source, dedupe_key)`
unfoldable pub sorts_before : ContextContribution → ContextContribution → Bool
unfolding text_ltb
sorts_before a b =
    int_ltb b.priority a.priority
    || (int_eq a.priority b.priority
        && (text_ltb a.scope b.scope
            || (same Text-discrete a.scope b.scope
                && (text_ltb a.source b.source
                    || (same Text-discrete a.source b.source
                        && text_ltb a.dedupe_key b.dedupe_key)))))

-- `sorted`, which keeps the order of items that compare equal.
unfoldable pub insert_sorted :
    ContextContribution → List ContextContribution → List ContextContribution
unfolding sorts_before
insert_sorted item [] = item ∷ []
insert_sorted item (c ∷ cs) =
    let later = insert_sorted item cs in if sorts_before c item then c ∷ later else item ∷ c ∷ cs

unfoldable pub sort_items : List ContextContribution → List ContextContribution
unfolding insert_sorted
sort_items [] = []
sort_items (c ∷ cs) = insert_sorted c (sort_items cs)

unfoldable pub merge_contributions : List ContextContribution → List ContextContribution
unfolding choose values_of sort_items
merge_contributions items = sort_items (values_of (choose items []))
