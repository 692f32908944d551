-- ===== src/Lifecycle.antt =====
-- src/agent_runtime/lifecycle.py: waits that a stop ends, streams that close once, and the resources of a
-- run.
pub mod Waits
pub mod Streams
pub mod Scopes
