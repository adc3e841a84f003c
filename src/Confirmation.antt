-- ===== src/Confirmation.antt =====
-- api/internal/services/confirmation.
pub mod Matcher
mod Examples
