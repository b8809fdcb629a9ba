-- ===== src/Privacy.antt =====
-- packages/privacy: encryption at rest and the redaction of logs.
pub mod Encryption
pub mod Redact
pub mod LogEvent
