-- ===== src/Adapter.antt =====
-- internal/adapter: sessions of agents that run one process per turn.
pub mod Turn
pub mod Schedule
pub mod Exclusion
pub mod OneTurn
pub mod Panics
pub mod Quiet
mod Examples
