-- ===== src/Tests.antt =====
-- Concrete runs of the theorems.
mod Services
mod Pushes
mod Identifiers
mod Logins
mod Tokens
mod Plans
mod Keys
mod Passwords
mod Boards
pub mod Children
mod Feeds
mod Deletions
pub mod Applications
mod Applied
