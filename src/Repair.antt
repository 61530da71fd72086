-- ===== src/Repair.antt =====
-- internal/repairplan and internal/repairrunner: which repair steps may run, and running them.
pub mod Plan
pub mod Runner
pub mod Counts
pub mod Safety
pub mod Output
mod Examples
