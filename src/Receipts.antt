-- ===== src/Receipts.antt =====
-- packages/receipts: the construction of a receipt and its independent verification.
pub mod Builder
pub mod Verifier
pub mod Soundness
pub mod Tampering
