-- ===== src/Tests.antt =====
-- Tests on concrete inputs, and the theorems at inputs that meet their hypotheses.
mod Data
mod Json
mod Context
mod Policies
mod Recording
mod Pipelines
mod Runner
mod Loop
mod Adapter
mod Lifecycle
mod Capabilities
mod Provider
