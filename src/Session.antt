-- ===== src/Session.antt =====
-- internal/session: the registry of sessions, their event logs and the store that keeps them.
pub mod Store
pub mod Channel
pub mod Pump
pub mod Log
pub mod Numbering
pub mod Delivery
pub mod Rows
pub mod Manager
pub mod Persistence
pub mod Recovery
pub mod Subscribe
pub mod End
pub mod Follow
pub mod Lifecycle
pub mod Revival
pub mod Exclusive
pub mod Closing
pub mod Closed
pub mod Queries
mod Examples
mod RevivalExamples
