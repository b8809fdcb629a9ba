-- ===== src/Providers.antt =====
-- packages/providers: who answers for the merchant.
pub mod Sandbox
