-- ===== src/Recording.antt =====
-- src/agent_runtime/recording.py: the in-memory transcript.
pub mod Payloads
pub mod Store
pub mod Operations
pub mod Batches
pub mod Runs
pub mod Facts
pub mod Writing
pub mod Texts
pub mod Steps
pub mod Staging
pub mod Safe
pub mod Retries
pub mod Again
pub mod Forgetting
pub mod Finalized
pub mod Histories
pub mod Sameness
pub mod Replays
pub mod Snapshots
pub mod Contents
