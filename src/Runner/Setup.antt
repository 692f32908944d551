-- ===== src/Runner/Setup.antt =====
-- `accept_resolution` and `_binding_registry` of src/agent_runtime/runner.py.
use coresmos.Prelude.{Option, none, some, []}
use coresmos.Errors.{Result, ok, raise, capability_error}
use coresmos.Contracts.Enums.{MatchKind}
use coresmos.Contracts.Capabilities.{CapabilitySnapshot, Resolution}
use coresmos.Capabilities.Bindings.{BindingRegistry}

-- `resolution.snapshot`, which has to be there.
abbrev snapshot_of : Option CapabilitySnapshot → Result CapabilitySnapshot
snapshot_of none = raise capability_error
snapshot_of (some s) = ok s

abbrev accept_kind : MatchKind → Option CapabilitySnapshot → Result CapabilitySnapshot
accept_kind MatchKind.matched snapshot = snapshot_of snapshot
accept_kind MatchKind.degraded snapshot = snapshot_of snapshot
accept_kind _ snapshot = raise capability_error

unfoldable pub accept_resolution : Resolution → Result CapabilitySnapshot
accept_resolution r = accept_kind r.kind r.snapshot

-- The explicit registry, the one that a provider publishes in, or a new one.
unfoldable pub binding_registry : Option BindingRegistry → Option BindingRegistry → BindingRegistry
binding_registry (some explicit) published = explicit
binding_registry none (some published) = published
binding_registry none none = record { versions = []; seq = 0 }
