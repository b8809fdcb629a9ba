-- ===== src/Agent/Orchestrator/Refinement.antt =====
-- packages/agent/src/orchestrator.ts: the orchestrator refines the state machine.
pub mod Shape
pub mod Still
pub mod Stored
pub mod Kept
pub mod Calls
pub mod Runs
pub mod Fits
