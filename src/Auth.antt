-- ===== src/Auth.antt =====
-- api/internal/auth.
pub mod Rbac
mod Examples
