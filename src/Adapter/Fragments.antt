-- ===== src/Adapter/Fragments.antt =====
-- The fragments of tool calls that the adapter gathers, by their index.
use mathlib.Core.List.{append_assoc, append-nil}
use coresmos.Prelude.{
  Text, ◌++◌, map, ℕ, ◌≡◌, refl, ap, ◌∙◌, Bool, true, false, Option, none, some, List, [], ◌∷◌,
  Dict, get, put, get-put, ite, ℕ_discrete,
}
use coresmos.Adapter.{
  or_default, replaced, appended, FunctionDelta, new_fragment, ToolDelta, ToolFragment,
  add_fragment, add_deltas, or_new,
}

-- The tool deltas of an index, in order.
unfoldable pub own : ℕ → List ToolDelta → List ToolDelta
own i [] = []
own i (d ∷ ds) = ite (ℕ_discrete d.index i) (d ∷ own i ds) (own i ds)

-- The last text given that is not empty.
unfoldable pub last_given : List (Option Text) → Text
last_given [] = []
last_given (t ∷ ts) = or_default (last_given ts) (appended [] t)

abbrev name_in : Option FunctionDelta → Option Text
name_in none = none
name_in (some f) = f.name

abbrev piece_in : Option FunctionDelta → Option Text
piece_in none = none
piece_in (some f) = f.arguments

-- The pieces of the arguments, put together.
unfoldable pub pieces : List ToolDelta → Text
pieces [] = []
pieces (d ∷ ds) = appended [] (piece_in d.function) ++ pieces ds

-- A call by its deltas: the last id and the last name that are given, and all pieces of the arguments.
unfoldable pub described : List ToolDelta → ToolFragment
unfolding last_given pieces
described ds = record {
  call_id = last_given (map (λ (d : ToolDelta). d.id) ds);
  name = last_given (map (λ (d : ToolDelta). name_in d.function) ds);
  arguments = pieces ds;
}

-- What the code adds up the deltas of one call to.
unfoldable total : List ToolDelta → ToolFragment → ToolFragment
total [] acc = acc
total (d ∷ ds) acc = total ds (add_fragment d acc)

abbrev pub any_delta : List ToolDelta → Bool
any_delta [] = false
any_delta (d ∷ ds) = true

-- What stands under an index after a delta.
total-put :
    (i : ℕ) (d : ToolDelta) (rest : List ToolDelta) (tools : Dict ℕ ToolFragment)
    (e : Dec (d.index ≡ i))
    → total rest (
        or_new (
          ite e
            (some (add_fragment d (or_new (get ℕ_discrete d.index tools))))
            (get ℕ_discrete i tools)))
      ≡ total (ite e (d ∷ rest) rest) (or_new (get ℕ_discrete i tools))
unfolding total
total-put i d rest tools (yes p) =
    ap (λ j. total rest (add_fragment d (or_new (get ℕ_discrete j tools)))) p
total-put i d rest tools (no n) = refl

or_default-replaced :
    (later old : Text) (t : Option Text)
    → or_default later (replaced old t) ≡ or_default (or_default later (appended [] t)) old
or_default-replaced [] old none = refl
or_default-replaced [] old (some []) = refl
or_default-replaced [] old (some (c ∷ cs)) = refl
or_default-replaced (l ∷ later) old t = refl

appended-piece :
    (old : Text) (t : Option Text) (rest : Text)
    → appended old t ++ rest ≡ old ++ (appended [] t ++ rest)
appended-piece old none rest = refl
appended-piece old (some t) rest = append_assoc old t rest

add_fragment-fields :
    (d : ToolDelta) (acc : ToolFragment)
    → add_fragment d acc ≡ record {
      call_id = replaced acc.call_id d.id;
      name = replaced acc.name (name_in d.function);
      arguments = appended acc.arguments (piece_in d.function);
    }
unfolding add_fragment
add_fragment-fields d acc = by_function d.function
  where
    by_function :
        (f : Option FunctionDelta)
        → add_fragment (record { index = d.index; id = d.id; function = f }) acc ≡ record {
          call_id = replaced acc.call_id d.id;
          name = replaced acc.name (name_in f);
          arguments = appended acc.arguments (piece_in f);
        }
    by_function none = refl
    by_function (some f) = refl

total-fields :
    (ds : List ToolDelta) (acc : ToolFragment)
    → total ds acc ≡ record {
      call_id = or_default (described ds).call_id acc.call_id;
      name = or_default (described ds).name acc.name;
      arguments = acc.arguments ++ (described ds).arguments;
    }
unfolding total described last_given pieces
total-fields [] acc = rw (append-nil acc.arguments) refl
total-fields (d ∷ ds) acc =
    total-fields ds (add_fragment d acc)
    ∙ rw
        (
          add_fragment-fields d acc,
          or_default-replaced (described ds).call_id acc.call_id d.id,
          or_default-replaced (described ds).name acc.name (name_in d.function),
          appended-piece acc.arguments (piece_in d.function) (pieces ds),
        )
        refl

or_default-empty : (t : Text) → or_default t [] ≡ t
or_default-empty [] = refl
or_default-empty (c ∷ cs) = refl

total-described : (ds : List ToolDelta) → total ds new_fragment ≡ described ds
total-described ds =
    total-fields ds new_fragment
    ∙ rw (or_default-empty (described ds).call_id, or_default-empty (described ds).name) refl

get-add_deltas :
    (i : ℕ) (ds : List ToolDelta) (tools : Dict ℕ ToolFragment)
    → or_new (get ℕ_discrete i (add_deltas ds tools))
      ≡ total (own i ds) (or_new (get ℕ_discrete i tools))
unfolding add_deltas own total
get-add_deltas i [] tools = refl
get-add_deltas i (d ∷ ds) tools =
    let f = add_fragment d (or_new (get ℕ_discrete d.index tools)) in
    get-add_deltas i ds (put ℕ_discrete d.index f tools)
    ∙ ap (λ o. total (own i ds) (or_new o)) (get-put ℕ_discrete d.index i f tools)
    ∙ total-put i d (own i ds) tools (ℕ_discrete d.index i)

-- The code holds under each index what the deltas of that index describe.
pub found :
    (i : ℕ) (ds : List ToolDelta)
    → or_new (get ℕ_discrete i (add_deltas ds [])) ≡ described (own i ds)
unfolding get
found i ds = get-add_deltas i ds [] ∙ total-described (own i ds)
