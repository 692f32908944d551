-- ===== src/Context.antt =====
-- src/agent_runtime/context: budgets, the pairing of tool messages, and compression.
pub mod Pairing
pub mod Groups
pub mod Budget
pub mod Trim
pub mod Summary
pub mod Provider
pub mod Contributors
pub mod Merging
pub mod Preparing
