-- ===== src/Server.antt =====
-- internal/server: who may call what, and which requests are refused before an agent sees them.
pub mod Scopes
pub mod Access
pub mod Auth
pub mod Vouched
pub mod Capabilities
pub mod Candidate
pub mod Suitable
pub mod Metrics
pub mod Routing
pub mod Runtime
pub mod Creating
pub mod Create
pub mod Binding
pub mod Created
pub mod RouteAccount
pub mod RouteAgent
pub mod Suits
pub mod Routed
pub mod Policy
pub mod Refusals
mod Examples
mod RouteExamples
mod CreateExamples
