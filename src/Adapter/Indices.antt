-- ===== src/Adapter/Indices.antt =====
-- The indices under which the adapter holds fragments, in the order in which it makes calls of them.
use coresmos.Prelude.{
  ◌+◌, sym, if_neg, ℕ, ◌==◌, ◌≤◌, leb, ◌≡◌, refl, ap, ◌∙◌, Bool, true, false, ◌||◌, Option, none,
  some, List, [], ◌∷◌, Dict, get, put, get-put, ite, ℕ_discrete, arith, Bool-cases, inl, inr,
}
use coresmos.Adapter.{
  ToolDelta, ToolFragment, add_fragment, add_deltas, or_new, insert_index, sorted_indices,
}
use coresmos.Adapter.Fragments.{own, any_delta}

abbrev is_there : Option ToolFragment → Bool
is_there none = false
is_there (some f) = true

unfoldable pub listed : ℕ → List ℕ → Bool
listed i [] = false
listed i (j ∷ js) = i == j || listed i js

-- In strictly rising order, from a bound on: no index stands twice.
pub data Rising : ℕ → List ℕ → Type 0 where
  no_index : {b : ℕ} → Rising b []
  index : {b i : ℕ} {is : List ℕ} → b ≤ i → Rising (i + 1) is → Rising b (i ∷ is)

-- No index has two entries.
abbrev Distinct : Dict ℕ ToolFragment → Type 0
Distinct [] = Unit {0}
Distinct ((i, f) ∷ tools) = (get ℕ_discrete i tools ≡ none) × Distinct tools

put_step-Distinct :
    (i j : ℕ) (f g : ToolFragment) (tools : Dict ℕ ToolFragment) (e : Dec (j ≡ i))
    → get ℕ_discrete j tools ≡ none
    → Distinct tools
    → Distinct (put ℕ_discrete i f tools)
    → Distinct (ite e ((j, f) ∷ tools) ((j, g) ∷ put ℕ_discrete i f tools))
put_step-Distinct i j f g tools (yes p) absent h rest = (absent, h)
put_step-Distinct i j f g tools (no n) absent h rest = (
  get-put ℕ_discrete i j f tools
      ∙ (if_neg (ℕ_discrete i j) (λ p. n (sym p)) (some f) (get ℕ_discrete j tools) ∙ absent),
  rest,
)

put-Distinct :
    (i : ℕ) (f : ToolFragment) (tools : Dict ℕ ToolFragment)
    → Distinct tools
    → Distinct (put ℕ_discrete i f tools)
unfolding put get
put-Distinct i f [] h = (refl, tt)
put-Distinct i f ((j, g) ∷ tools) (absent, h) =
    put_step-Distinct i j f g tools (ℕ_discrete j i) absent h (put-Distinct i f tools h)

add_deltas-Distinct :
    (ds : List ToolDelta) (tools : Dict ℕ ToolFragment)
    → Distinct tools
    → Distinct (add_deltas ds tools)
unfolding add_deltas
add_deltas-Distinct [] tools h = h
add_deltas-Distinct (d ∷ ds) tools h = add_deltas-Distinct ds _ (put-Distinct d.index _ tools h)

is_there-put :
    {P : Type 0} (d : ToolDelta) (rest : List ToolDelta) (f : ToolFragment)
    (o : Option ToolFragment) (e : Dec P)
    → (is_there (ite e (some f) o) || any_delta rest)
      ≡ (is_there o || any_delta (ite e (d ∷ rest) rest))
is_there-put d rest f o (yes p) = ground arith
is_there-put d rest f o (no n) = refl

is_there-add_deltas :
    (i : ℕ) (ds : List ToolDelta) (tools : Dict ℕ ToolFragment)
    → is_there (get ℕ_discrete i (add_deltas ds tools))
      ≡ (is_there (get ℕ_discrete i tools) || any_delta (own i ds))
unfolding add_deltas own
is_there-add_deltas i [] tools = ground arith
is_there-add_deltas i (d ∷ ds) tools =
    let f = add_fragment d (or_new (get ℕ_discrete d.index tools)) in
    is_there-add_deltas i ds (put ℕ_discrete d.index f tools)
    ∙ ap (λ o. is_there o || any_delta (own i ds)) (get-put ℕ_discrete d.index i f tools)
    ∙ is_there-put d (own i ds) f (get ℕ_discrete i tools) (ℕ_discrete d.index i)

listed-insert_index :
    (i j : ℕ) (js : List ℕ) → listed i (insert_index j js) ≡ (i == j || listed i js)
unfolding insert_index listed
listed-insert_index i j [] = refl
listed-insert_index i j (k ∷ js) = ground (arith, listed-insert_index i j js)

listed-sorted_indices :
    (i : ℕ) (tools : Dict ℕ ToolFragment)
    → listed i (sorted_indices tools) ≡ is_there (get ℕ_discrete i tools)
unfolding sorted_indices get listed
listed-sorted_indices i [] = refl
listed-sorted_indices i ((j, f) ∷ tools) =
    listed-insert_index i j (sorted_indices tools)
    ∙ rw (listed-sorted_indices i tools)
        (elim (ℕ_discrete j i) [ yes p ↦ ground (arith, p) | no n ↦ ground (arith, n) ])

-- Exactly the indices that have a delta are listed.
pub listed-add_deltas :
    (i : ℕ) (ds : List ToolDelta)
    → listed i (sorted_indices (add_deltas ds [])) ≡ any_delta (own i ds)
unfolding get
listed-add_deltas i ds = listed-sorted_indices i (add_deltas ds []) ∙ is_there-add_deltas i ds []

insert_index-Rising :
    (b i : ℕ) (js : List ℕ)
    → b ≤ i
    → listed i js ≡ false
    → Rising b js
    → Rising b (insert_index i js)
unfolding insert_index listed
insert_index-Rising b i [] l new r = index l no_index
insert_index-Rising b i (j ∷ js) l new (index k r) = elim (Bool-cases (leb i j)) [
  | inl e ↦ rw e (index l (index (ground (arith, e, new)) r))
  | inr e ↦
      rw e (index k (insert_index-Rising (j + 1) i js (ground (arith, e)) (ground (arith, new)) r))
]

sorted_indices-Rising :
    (tools : Dict ℕ ToolFragment) → Distinct tools → Rising 0 (sorted_indices tools)
unfolding sorted_indices
sorted_indices-Rising [] h = no_index
sorted_indices-Rising ((i, f) ∷ tools) (absent, h) =
    insert_index-Rising 0 i (sorted_indices tools) (omega arith)
      (listed-sorted_indices i tools ∙ ap is_there absent) (sorted_indices-Rising tools h)

-- The indices of the fragments rise strictly.
pub indices-Rising : (ds : List ToolDelta) → Rising 0 (sorted_indices (add_deltas ds []))
indices-Rising ds = sorted_indices-Rising (add_deltas ds []) (add_deltas-Distinct ds [] tt)
