-- ===== src/Loop.antt =====
-- src/agent_runtime/core.py: the agent loop.
pub mod Streams
pub mod Strict
pub mod Allocation
pub mod Numbers
pub mod Turns
pub mod Ends
