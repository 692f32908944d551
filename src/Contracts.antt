-- ===== src/Contracts.antt =====
-- src/agent_runtime/contracts.py: the value objects that the other modules exchange.
pub mod Enums
pub mod Messages
pub mod Receipts
pub mod Flows
pub mod Capabilities
pub mod Steps
