-- ===== src/Shared.antt =====
-- packages/shared: the domain types, the case state machine and the commitments.
pub mod Types
pub mod Errors
pub mod StateMachine
pub mod Commitment
pub mod Artifacts
pub mod Messages
pub mod Money
pub mod Traced
