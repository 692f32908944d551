-- ===== src/Capabilities/Publishing.antt =====
-- What the publication of tools in a session of src/agent_runtime/capabilities/providers.py makes.
use coresmos.Prelude.{
  ◌⊎◌, Option-cases, ℕ, ◌+◌, ◌≤◌, ◌≡◌, ◌≢◌, refl, sym, ap, ◌∙◌, arith, ite, Bool, true, false,
  if◌then◌else◌, Option, none, some, List, [], ◌∷◌, All, Text, Text-discrete, Dict, get, put,
  get-put, inl, inr, last_number, last_number-decimal,
}
use coresmos.Errors.{Error, Result, ok, raise, Result-cases, capability_error}
use coresmos.Contracts.Messages.{ToolSpec}
use coresmos.Capabilities.Bindings.{
  BindingRegistry, BindingSetRef, mapping, table_of, IsNumbered, publish-keeps,
}
use coresmos.Capabilities.Sessions.{
  CapabilitySnapshot, ContextContribution, Shared, carry, update, key_or_default, given_or,
  cap_version, check_all, publish_tools, publish_session,
}

abbrev or_this : Option Text → Option Text → Option Text
or_this none other = other
or_this (some key) other = some key

-- The key that a mapping gives to a name, where a later entry counts.
unfoldable pub last_given : Text → Dict Text Text → Option Text
last_given name [] = none
last_given name ((k, key) ∷ d) =
    or_this (last_given name d) (ite (Text-discrete k name) (some key) none)

unfoldable pub is_named : Text → List ToolSpec → Bool
is_named name [] = false
is_named name (s ∷ ss) = ite (Text-discrete s.name name) true (is_named name ss)

-- The key that a name is bound to: the one given for it; for another name of a published tool the one
-- of the previous table, or "default"; and none for all other names.
abbrev pub key_for : Text → List ToolSpec → Dict Text Text → Dict Text Text → Option Text
key_for name tools extra previous =
    or_this (last_given name extra) (
      if is_named name tools then some (key_or_default (get Text-discrete name previous)) else none)

update_step :
    {P : Type 0} (later : Option Text) (key : Text) (old : Option Text) (e : Dec P)
    → or_this later (ite e (some key) old) ≡ or_this (or_this later (ite e (some key) none)) old
update_step none key old (yes p) = refl
update_step none key old (no n) = refl
update_step (some k) key old e = refl

get-update :
    (name : Text) (extra d : Dict Text Text)
    → get Text-discrete name (update extra d)
      ≡ or_this (last_given name extra) (get Text-discrete name d)
unfolding update last_given
get-update name [] d = refl
get-update name ((k, key) ∷ extra) d =
    get-update name extra (put Text-discrete k key d)
    ∙ ap (or_this (last_given name extra)) (get-put Text-discrete k name key d)
    ∙ update_step (last_given name extra) key (get Text-discrete name d) (Text-discrete k name)

carry_step :
    (s name : Text) (named : Bool) (previous : Dict Text Text) (old : Option Text)
    (e : Dec (s ≡ name))
    → (if named
        then some (key_or_default (get Text-discrete name previous))
        else ite e (some (key_or_default (get Text-discrete s previous))) old)
      ≡ (if ite e true named then some (key_or_default (get Text-discrete name previous)) else old)
carry_step s name true previous old (yes p) = refl
carry_step s name true previous old (no n) = refl
carry_step s name false previous old (yes p) =
    ap (λ t. some (key_or_default (get Text-discrete t previous))) p
carry_step s name false previous old (no n) = refl

get-carry :
    (name : Text) (previous : Dict Text Text) (tools : List ToolSpec) (d : Dict Text Text)
    → get Text-discrete name (carry previous tools d) ≡ (
        if is_named name tools
        then some (key_or_default (get Text-discrete name previous))
        else get Text-discrete name d)
unfolding carry is_named
get-carry name previous [] d = refl
get-carry name previous (s ∷ ss) d =
    let key = key_or_default (get Text-discrete s.name previous) in
    get-carry name previous ss (put Text-discrete s.name key d)
    ∙ ap
        (λ o.
          if is_named name ss then some (key_or_default (get Text-discrete name previous)) else o)
        (get-put Text-discrete s.name name key d)
    ∙ carry_step s.name name (is_named name ss) previous (get Text-discrete name d)
        (Text-discrete s.name name)

get-table :
    (name : Text) (tools : List ToolSpec) (extra previous : Dict Text Text)
    → get Text-discrete name (update extra (carry previous tools []))
      ≡ key_for name tools extra previous
unfolding get
get-table name tools extra previous =
    get-update name extra (carry previous tools [])
    ∙ ap (or_this (last_given name extra)) (get-carry name previous tools [])

cap_version_injective : (m n : ℕ) → cap_version m ≡ cap_version n → m ≡ n
unfolding cap_version
cap_version_injective m n e =
    sym (last_number-decimal 0 m []) ∙ (ap read e ∙ last_number-decimal 0 n [])
  where
    skip : Text → Text
    skip (a ∷ b ∷ c ∷ d ∷ rest) = rest
    skip t = t

    read : Text → ℕ
    read t = last_number 0 (58 ∷ skip t)

-- The tables that a registry has are those of an earlier one, and more.
pub record Keeps (r r' : BindingRegistry) : Type 0 where
  pub numbered : IsNumbered r'
  pub tables :
      (ref : BindingSetRef) (t : Dict Text Text)
      → table_of r ref ≡ some t
      → table_of r' ref ≡ some t

module _ (check_tool_spec : ToolSpec → Result (Unit {0})) where
  -- The first tool that is not accepted, and why.
  pub data Rejects (e : Error) : List ToolSpec → Type 0 where
    rejected :
        {s : ToolSpec} {ss : List ToolSpec} → check_tool_spec s ≡ raise e → Rejects e (s ∷ ss)
    later :
        {s : ToolSpec} {ss : List ToolSpec}
        → check_tool_spec s ≡ ok tt
        → Rejects e ss
        → Rejects e (s ∷ ss)

  abbrev Accepted : ToolSpec → Type 0
  Accepted s = check_tool_spec s ≡ ok tt

  module _ (tools : List ToolSpec) (extra : Dict Text Text)
      (contributions : Option (List ContextContribution)) (s : Shared) where
    -- A snapshot that was published. Each name is bound in its table as `key_for` says, and the table
    -- of the snapshot before is where the keys are carried over from.
    pub record IsPublication (snapshot : CapabilitySnapshot) (s' : Shared) : Type 0 where
      pub accepted : All Accepted tools
      pub current : s'.0.current ≡ snapshot
      pub next : s'.0.seq ≡ s.0.seq + 1
      pub same_tools : snapshot.tools ≡ tools
      pub same_contributions :
          snapshot.contributions ≡ given_or contributions s.0.current.contributions
      pub new_version : (n : ℕ) → n ≤ s.0.seq → snapshot.version ≢ cap_version n
      pub previous : Dict Text Text
      pub was_bound : table_of s.1 s.0.current.binding_ref ≡ some previous
      pub table : Dict Text Text
      pub is_bound : table_of s'.1 snapshot.binding_ref ≡ some table
      pub keys : (name : Text) → get Text-discrete name table ≡ key_for name tools extra previous
      pub keeps : Keeps s.1 s'.1

    -- How a publication ends: a tool is refused, or the current snapshot has no table, and nothing is
    -- changed; or a snapshot is published.
    pub data Published : Result CapabilitySnapshot × Shared → Type 0 where
      refused : (e : Error) → Rejects e tools → Published (raise e, s)
      unbound :
          All Accepted tools
          → table_of s.1 s.0.current.binding_ref ≡ none
          → Published (raise capability_error, s)
      published :
          (snapshot : CapabilitySnapshot) (s' : Shared)
          → IsPublication snapshot s'
          → Published (ok snapshot, s')

  check_all-cases :
      (ss : List ToolSpec)
      → (All Accepted ss × (check_all check_tool_spec ss ≡ ok tt))
        ⊎ ((e : Error) × Rejects e ss × (check_all check_tool_spec ss ≡ raise e))
  unfolding check_all
  check_all-cases [] = inl (tt, refl)
  check_all-cases (s ∷ ss) = elim (Result-cases (check_tool_spec s)) [
    | inr (e, p) ↦ inr (e, rejected p, rw p refl)
    | inl (u, p) ↦ elim (check_all-cases ss) [
      | inl (all, q) ↦ inl ((p, all), rw (p, q) refl)
      | inr (e, r, q) ↦ inr (e, later p r, rw (p, q) refl)
    ]
  ]

  -- Publishing tools in a session whose registry is numbered changes nothing and raises, if a tool is
  -- not accepted or the current snapshot has no table. Otherwise it makes a current snapshot with those
  -- tools and a version of a new number, whose table binds exactly the tools and the names with
  -- a given key: to the given key, else to the one of the previous table, else to "default". Every
  -- earlier table stays as it was.
  pub publish_session-Published :
      (tools : List ToolSpec) (extra : Dict Text Text)
      (contributions : Option (List ContextContribution)) (s : Shared)
      → IsNumbered s.1
      → Published tools extra contributions s
          (publish_session check_tool_spec tools extra contributions s)
  unfolding publish_session publish_tools mapping
  publish_session-Published tools extra contributions s v = elim (check_all-cases tools) [
    | inr (e, r, p) ↦ rw p (refused e r)
    | inl (all, p) ↦ elim (Option-cases (table_of s.1 s.0.current.binding_ref)) [
      | inl q ↦ rw (p, mapping, q) (unbound all q)
      | inr (previous, q) ↦
          let table = update extra (carry previous tools []) in
          let (numbered, found, kept) = publish-keeps table s.1 v in
          rw (p, mapping, q)
            (published _ _ (record {
              accepted = all;
              current = refl;
              next = refl;
              same_tools = refl;
              same_contributions = refl;
              new_version =
                  λ n l e. absurd (omega (arith, l, cap_version_injective (s.0.seq + 1) n e));
              previous = previous;
              was_bound = q;
              table = table;
              is_bound = found;
              keys = λ name. get-table name tools extra previous;
              keeps = record { numbered = numbered; tables = kept };
            }))
    ]
  ]
