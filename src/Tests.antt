-- ===== src/Tests.antt =====
-- Concrete data, and what the definitions and theorems say of it.
pub mod Data
pub mod Shared
pub mod Receipts
pub mod Agent
pub mod Web
pub mod Refinement
pub mod Clients
pub mod Approval
pub mod Session
pub mod Files
pub mod Card
