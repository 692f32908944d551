-- ===== src/Capabilities.antt =====
-- src/agent_runtime/capabilities/providers.py: bindings, resolvers and sessions.
pub mod Bindings
pub mod Sessions
pub mod Publishing
pub mod Resolving
