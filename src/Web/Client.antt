-- ===== src/Web/Client.antt =====
-- apps/web/src/components and apps/web/src/app/cases: what the pages show, and how they change.
pub mod Lifecycle
pub mod Display
pub mod Values
pub mod StatusBadge
pub mod ReceiptCard
pub mod CaseView
pub mod NewCase
