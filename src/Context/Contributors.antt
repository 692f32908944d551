-- ===== src/Context/Contributors.antt =====
-- `_collect` of `DefaultStepProvider` in src/agent_runtime/context/manager.py: what the contributors add
-- to a prompt, and the cache that some of them allow.
use coresmos.Prelude.{
  ℕ, ◌+◌, ◌≤◌, ◌≡◌, refl, ap, if◌then◌else◌, Option, none, some, List, [], ◌∷◌, ◌++◌, Text,
  Text-discrete, ℕ_discrete, Dict, get, put, get-put, arith, inl, inr,
}
use coresmos.Errors.{Result, ok, raise, ◌>>=◌, Result-cases}
use coresmos.Recording.Payloads.{same}
use coresmos.Capabilities.Sessions.{ContextContribution}

-- What a contributor answers for the request, target and application state at hand.
pub record ContextContributor : Type 0 where
  -- `cache_key(...)`, and `none` of a contributor that is not cacheable.
  pub cache_key : Option Text
  pub contribute : Result (List ContextContribution)

abbrev pub Cached : Type 0
Cached = Text × List ContextContribution

-- `if cached is not None and cached[0] == key`
abbrev pub hit : Option Text → Option Cached → Option (List ContextContribution)
hit none cached = none
hit (some key) none = none
hit (some key) (some (old, items)) = if same Text-discrete old key then some items else none

abbrev pub remember : Option Text → ℕ → List ContextContribution → Dict ℕ Cached → Dict ℕ Cached
remember none i items cache = cache
remember (some key) i items cache = put ℕ_discrete i (key, items) cache

abbrev extended :
    List ContextContribution
    → Result (List ContextContribution) × Dict ℕ Cached
    → Result (List ContextContribution) × Dict ℕ Cached
extended items (rest, cache) = (rest >>= λ more. ok (items ++ more), cache)

-- From the contributor at an index on.
unfoldable pub collect :
    ℕ → List ContextContributor → Dict ℕ Cached → Result (List ContextContribution) × Dict ℕ Cached
collect i [] cache = (ok [], cache)
collect i (c ∷ cs) cache = elim (hit c.cache_key (get ℕ_discrete i cache)) [
  | some items ↦ extended items (collect (i + 1) cs cache)
  | none ↦ elim c.contribute [
    | raise e ↦ (raise e, cache)
    | ok items ↦ extended items (collect (i + 1) cs (remember c.cache_key i items cache))
  ]
]

-- What the contributors answer, one after the other; the first exception ends it.
unfoldable pub contributions : List ContextContributor → Result (List ContextContribution)
contributions [] = ok []
contributions (c ∷ cs) = c.contribute >>= λ items. contributions cs >>= λ more. ok (items ++ more)

missed : (key : Option Text) → hit key none ≡ none
missed none = refl
missed (some key) = refl

IsFresh : ℕ → Dict ℕ Cached → Type 0
IsFresh i cache = (j : ℕ) → i ≤ j → get ℕ_discrete j cache ≡ none

remember-IsFresh :
    (key : Option Text) (i : ℕ) (items : List ContextContribution) (cache : Dict ℕ Cached)
    → IsFresh i cache
    → IsFresh (i + 1) (remember key i items cache)
unfolding IsFresh
remember-IsFresh none i items cache fresh j le = fresh j (omega arith)
remember-IsFresh (some key) i items cache fresh j le =
    ground (arith, get-put ℕ_discrete i j (key, items) cache, fresh j)

collect-fresh :
    (i : ℕ) (cs : List ContextContributor) (cache : Dict ℕ Cached)
    → IsFresh i cache
    → (collect i cs cache).0 ≡ contributions cs
unfolding collect contributions
collect-fresh i [] cache fresh = refl
collect-fresh i (c ∷ cs) cache fresh =
    let nothing : get ℕ_discrete i cache ≡ none = (unfold IsFresh in fresh i (omega arith)) in
    elim (Result-cases c.contribute) [
      | inr (e, fails) ↦ rw (collect, nothing, missed c.cache_key, fails) refl
      | inl (items, answers) ↦
          rw (collect, nothing, missed c.cache_key, answers)
            (ap (λ r. r >>= λ more. ok (items ++ more))
              (collect-fresh (i + 1) cs (remember c.cache_key i items cache)
                (remember-IsFresh c.cache_key i items cache fresh)))
    ]

-- With an empty cache the contributions are those of all contributors, in their order, or the first
-- exception of one, whatever their cache keys are.
pub collect-empty : (cs : List ContextContributor) → (collect 0 cs []).0 ≡ contributions cs
unfolding IsFresh get
collect-empty cs = collect-fresh 0 cs [] (λ j le. refl)
