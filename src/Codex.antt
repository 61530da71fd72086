-- ===== src/Codex.antt =====
-- internal/adapter/codex: the codex app-server, its connection, its sessions and their events.
pub mod Rpc
pub mod Calls
pub mod Answered
pub mod AppSession
pub mod Engine
pub mod Approvals
pub mod Results
pub mod Deaths
mod Examples
