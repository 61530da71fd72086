-- ===== src/Security.antt =====
-- internal/security: scoped tokens and the headers that are accepted and shown.
pub mod Headers
pub mod Token
pub mod Minting
mod Examples
