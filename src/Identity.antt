-- ===== src/Identity.antt =====
-- internal/modules/identity: login by a code in an e-mail, sessions and devices.
pub mod Codes
pub mod Domain
pub mod EmailLogin
pub mod Fallback
pub mod Limiter
pub mod Store
pub mod Challenges
pub mod PasswordLogin
pub mod Sessions
