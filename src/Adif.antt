-- ===== src/Adif.antt =====
-- pkg/adif.
pub mod Fields
pub mod Mode
pub mod Record
pub mod Tag
pub mod Scan
pub mod Parser
pub mod Order
pub mod Writer
pub mod Callsign
pub mod Examples
pub mod Validate
