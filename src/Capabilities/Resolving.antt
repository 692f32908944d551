-- ===== src/Capabilities/Resolving.antt =====
-- `ResolverChain` of src/agent_runtime/capabilities/providers.py.
use coresmos.Prelude.{
  ◌≡◌, ◌∙◌, Bool, true, false, if◌then◌else◌, Option, none, some, List, [], ◌∷◌, ◌++◌, codes,
}
use coresmos.Errors.{Result, ok, raise}
use coresmos.Contracts.Enums.{MatchKind}
use coresmos.Capabilities.Bindings.{BindingRegistry, publish, mapping}
use coresmos.Capabilities.Sessions.{CapabilitySnapshot, Resolution}

-- Where a provider's references are found: in the chain's registry, or in one of its own.
pub data BindingSource : Type 0 where
  same : BindingSource
  other : BindingRegistry → BindingSource

-- What a provider answers to the request at hand, and its registry, if it has one.
pub record CapabilityProvider : Type 0 where
  pub answer : Result Resolution
  pub source : Option BindingSource

abbrev pub is_no_match : MatchKind → Bool
is_no_match MatchKind.no_match = true
is_no_match _ = false

-- The snapshot of a foreign registry is published again in the chain's.
unfoldable pub rebind :
    Resolution
    → CapabilitySnapshot
    → BindingRegistry
    → BindingRegistry
    → Result Resolution × BindingRegistry
unfolding mapping publish
rebind result snapshot source r = elim (mapping source snapshot.binding_ref) [
  | raise e ↦ (raise e, r)
  | ok table ↦
      let (ref, r') = publish table r in
      (ok (record result { snapshot = some (record snapshot { binding_ref = ref }) }), r')
]

unfoldable pub settle :
    Option BindingSource → Resolution → BindingRegistry → Result Resolution × BindingRegistry
unfolding rebind
settle source result r = elim result.snapshot [
  | none ↦ (ok result, r)
  | some snapshot ↦ elim source [
    | some (BindingSource.other own) ↦ rebind result snapshot own r
    | _ ↦ (ok result, r)
  ]
]

-- The loop over the providers, with the last answer that did not match.
unfoldable pub resolve_from :
    Resolution → List CapabilityProvider → BindingRegistry → Result Resolution × BindingRegistry
unfolding settle
resolve_from last [] r = (ok last, r)
resolve_from last (p ∷ ps) r = elim p.answer [
  | raise e ↦ (raise e, r)
  | ok result ↦
      let later = resolve_from result ps r in
      if is_no_match result.kind then later else settle p.source result r
]

abbrev pub empty_chain : Resolution
empty_chain = record {
  kind = MatchKind.no_match;
  snapshot = none;
  reason = some (codes "empty chain");
}

unfoldable pub resolve_chain :
    List CapabilityProvider → BindingRegistry → Result Resolution × BindingRegistry
unfolding resolve_from
resolve_chain providers r = resolve_from empty_chain providers r

-- The provider answered that it has no match.
pub record Passes (p : CapabilityProvider) : Type 0 where
  pub result : Resolution
  pub answers : p.answer ≡ ok result
  pub no_match : is_no_match result.kind ≡ true

unfoldable pub AllPass : List CapabilityProvider → Type 0
AllPass [] = Unit
AllPass (p ∷ ps) = Passes p × AllPass ps

pass_on :
    (last : Resolution) (p : CapabilityProvider) (ps : List CapabilityProvider)
    (r : BindingRegistry) (h : Passes p)
    → resolve_from last (p ∷ ps) r ≡ resolve_from h.result ps r
unfolding resolve_from
pass_on last p ps r h = rw (h.answers, h.no_match, resolve_from)

resolve_from-first :
    (last : Resolution) (before : List CapabilityProvider) (p : CapabilityProvider)
    (after : List CapabilityProvider) (r : BindingRegistry) (result : Resolution)
    → AllPass before
    → p.answer ≡ ok result
    → is_no_match result.kind ≡ false
    → resolve_from last (before ++ p ∷ after) r ≡ settle p.source result r
unfolding resolve_from AllPass
resolve_from-first last [] p after r result h e n = rw (e, n, resolve_from)
resolve_from-first last (q ∷ qs) p after r result (h, hs) e n =
    pass_on last q (qs ++ p ∷ after) r h ∙ resolve_from-first h.result qs p after r result hs e n

-- The first provider whose answer is not NO_MATCH settles the chain: degraded, rejected and config
-- errors stop it like a match, and no provider behind it is asked.
pub resolve_chain-first :
    (before : List CapabilityProvider) (p : CapabilityProvider) (after : List CapabilityProvider)
    (r : BindingRegistry) (result : Resolution)
    → AllPass before
    → p.answer ≡ ok result
    → is_no_match result.kind ≡ false
    → resolve_chain (before ++ p ∷ after) r ≡ settle p.source result r
unfolding resolve_chain
resolve_chain-first before p after r result h e n =
    resolve_from-first empty_chain before p after r result h e n
