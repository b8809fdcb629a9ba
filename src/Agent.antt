-- ===== src/Agent.antt =====
-- packages/agent: the case records, their store and the orchestrator.
pub mod CaseRecord
pub mod World
pub mod Store
pub mod Orchestrator
