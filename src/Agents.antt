-- ===== src/Agents.antt =====
-- internal/adapter: the command lines of the agents and the translation of what they print.
pub mod Cli
pub mod Claude
pub mod Gemini
pub mod Opencode
pub mod Cursor
pub mod CodexExec
pub mod Fits
pub mod Conformance
pub mod Turns
pub mod Unrecorded
pub mod Discovery
mod Examples
mod StartExamples
