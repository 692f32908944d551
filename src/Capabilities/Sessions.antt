-- ===== src/Capabilities/Sessions.antt =====
-- `CapabilitySession` and `FixedCapabilityProvider` of src/agent_runtime/capabilities/providers.py. The
-- check of a tool's JSON Schema is the parameter `check_tool_spec`.
pub use coresmos.Contracts.Capabilities.{ContextContribution, CapabilitySnapshot, Resolution}
use coresmos.Prelude.{
  ℕ, ◌+◌, Option, none, some, List, [], ◌∷◌, ◌++◌, Text, Text-discrete, codes, Dict, get, put,
  decimal,
}
use coresmos.Errors.{Result, ok, raise, ◌>>◌}
use coresmos.Contracts.Enums.{MatchKind}
use coresmos.Contracts.Messages.{ToolSpec}
use coresmos.Capabilities.Bindings.{BindingRegistry, publish, mapping}

pub record CapabilitySession : Type 0 where
  pub current : CapabilitySnapshot
  pub seq : ℕ

abbrev pub key_or_default : Option Text → Text
key_or_default none = codes "default"
key_or_default (some key) = key

-- `{spec.name: previous.get(spec.name, "default") for spec in tools}`, on top of a mapping.
unfoldable pub carry : Dict Text Text → List ToolSpec → Dict Text Text → Dict Text Text
carry previous [] d = d
carry previous (s ∷ ss) d =
    carry previous ss
      (put Text-discrete s.name (key_or_default (get Text-discrete s.name previous)) d)

-- `{spec.name: invoker_key for spec in tools}`, on top of a mapping.
unfoldable pub bind_all : Text → List ToolSpec → Dict Text Text → Dict Text Text
bind_all key [] d = d
bind_all key (s ∷ ss) d = bind_all key ss (put Text-discrete s.name key d)

-- `d.update(extra)`
unfoldable pub update : Dict Text Text → Dict Text Text → Dict Text Text
update [] d = d
update ((k, v) ∷ extra) d = update extra (put Text-discrete k v d)

-- `{spec.name: spec for spec in specs}`, on top of a mapping.
unfoldable pub by_name : List ToolSpec → Dict Text ToolSpec → Dict Text ToolSpec
by_name [] d = d
by_name (s ∷ ss) d = by_name ss (put Text-discrete s.name s d)

unfoldable pub values : Dict Text ToolSpec → List ToolSpec
values [] = []
values ((k, s) ∷ d) = s ∷ values d

abbrev pub given_or :
    Option (List ContextContribution) → List ContextContribution → List ContextContribution
given_or none old = old
given_or (some new) old = new

-- `f"cap-{seq}"`
unfoldable pub cap_version : ℕ → Text
cap_version n = codes "cap-" ++ decimal n

-- The session and the registry that it shares with others.
abbrev pub Shared : Type 0
Shared = CapabilitySession × BindingRegistry

-- `FixedCapabilityProvider.resolve`: an empty set of tools is a match too.
abbrev pub fixed_resolution : CapabilitySnapshot → Resolution
fixed_resolution snapshot = record {
  kind = MatchKind.matched;
  snapshot = some snapshot;
  reason = none;
}

module _ (check_tool_spec : ToolSpec → Result (Unit {0})) where
  unfoldable pub check_all : List ToolSpec → Result (Unit {0})
  check_all [] = ok tt
  check_all (s ∷ ss) = check_tool_spec s >> check_all ss

  -- What is published, when the checks and the old mapping are there.
  unfoldable pub publish_tools :
      List ToolSpec
      → Dict Text Text
      → Option (List ContextContribution)
      → Dict Text Text
      → Shared
      → CapabilitySnapshot × Shared
  unfolding publish carry update cap_version
  publish_tools tools extra contributions previous (session, registry) =
      let (ref, registry') = publish (update extra (carry previous tools [])) registry in
      let snapshot = record session.current {
        version = cap_version (session.seq + 1);
        tools = tools;
        binding_ref = ref;
        contributions = given_or contributions session.current.contributions;
      } in
      (snapshot, (record { current = snapshot; seq = session.seq + 1 }, registry'))

  abbrev when_ok :
      Result (Dict Text Text)
      → (Dict Text Text → CapabilitySnapshot × Shared)
      → Shared
      → Result CapabilitySnapshot × Shared
  when_ok (raise e) f s = (raise e, s)
  when_ok (ok d) f s = (ok (f d).0, (f d).1)

  -- `CapabilitySession.publish`
  unfoldable pub publish_session :
      List ToolSpec
      → Dict Text Text
      → Option (List ContextContribution)
      → Shared
      → Result CapabilitySnapshot × Shared
  unfolding check_all mapping publish_tools
  publish_session tools extra contributions s =
      when_ok (check_all tools >> mapping s.1 s.0.current.binding_ref)
        (λ previous. publish_tools tools extra contributions previous s) s

  -- `CapabilitySession.activate`
  unfoldable pub activate : List ToolSpec → Shared → Result CapabilitySnapshot × Shared
  unfolding publish_session by_name values
  activate extra s =
      publish_session (values (by_name extra (by_name s.0.current.tools []))) [] none s

  -- `FixedCapabilityProvider`: its snapshot, published in the registry.
  unfoldable pub fixed_snapshot :
      List ToolSpec
      → Text
      → List ContextContribution
      → BindingRegistry
      → Result CapabilitySnapshot × BindingRegistry
  unfolding check_all publish bind_all
  fixed_snapshot tools invoker_key contributions registry = elim (check_all tools) [
    | raise e ↦ (raise e, registry)
    | ok _ ↦
        let (ref, registry') = publish (bind_all invoker_key tools []) registry in
        (
          ok (record {
            version = codes "cap-1";
            tools = tools;
            binding_ref = ref;
            contributions = contributions;
            policy_ref = codes "fixed";
          }),
          registry',
        )
  ]
