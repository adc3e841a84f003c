-- ===== src/Awards.antt =====
-- api/internal/services/awards.
pub mod Wpx
pub mod Milestones
mod Examples
