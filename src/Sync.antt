-- ===== src/Sync.antt =====
-- api/internal/services/sync.
pub mod Config
pub mod Circuit
pub mod Rate
pub mod Worker
pub mod Status
pub mod Export
pub mod Credentials
pub mod AwardProgress
pub mod ClubLog
mod Examples
