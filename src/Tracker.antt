-- ===== src/Tracker.antt =====
-- internal/modules/tracker: applications, their status events, interview rounds, notes and
-- reminders.
pub mod Domain
pub mod StateMachine
pub mod Validate
pub mod Store
pub mod Cascade
pub mod Application
pub mod Children
pub mod Calls
pub mod SyncAdapter
pub mod Services
