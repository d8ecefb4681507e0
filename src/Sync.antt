-- ===== src/Sync.antt =====
-- internal/modules/sync: the push and pull services of the synchronisation protocol.
pub mod Types
pub mod Operations
pub mod Handlers
pub mod Push
pub mod Changes
pub mod Feed
pub mod Cursor
pub mod Bootstrap
pub mod Pull
