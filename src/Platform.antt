-- ===== src/Platform.antt =====
-- internal/platform: what the modules share.
pub mod Id
pub mod Idempotency
