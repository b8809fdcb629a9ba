-- ===== src/Payments.antt =====
-- packages/payments: the contingency fee and the settlement ledger.
pub mod Fee
pub mod Ledger
