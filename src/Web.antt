-- ===== src/Web.antt =====
-- apps/web/src: the server of the web application, and the pages of a case.
pub mod Validate
pub mod Routes
pub mod Config
pub mod Wiring
pub mod Client
pub mod Session
