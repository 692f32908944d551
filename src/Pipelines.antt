-- ===== src/Pipelines.antt =====
-- src/agent_runtime/pipelines: the default phases of a step, on the run's session.
pub mod Application
pub mod Session
pub mod Keeping
pub mod Untouched
pub mod Protocol
pub mod Model
pub mod Tools
pub mod Completion
pub mod Phases
