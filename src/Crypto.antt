-- ===== src/Crypto.antt =====
-- api/internal/crypto.
pub mod Keyring
mod Examples
