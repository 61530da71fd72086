-- ===== src/Account.antt =====
-- internal/account: accounts, their quota and health, and the choice of an account for a session.
pub mod Store
pub mod Profiles
pub mod Delete
pub mod Rows
pub mod Answers
pub mod Calls
pub mod References
pub mod Memberships
pub mod Deleting
pub mod Writes
mod Examples
pub mod Routing
pub mod Choice
pub mod Evidence
pub mod Candidates
pub mod Quota
pub mod Percents
pub mod Redaction
