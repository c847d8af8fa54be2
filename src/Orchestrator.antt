-- ===== src/Orchestrator.antt =====
-- The deployment workflow: internal/orchestrator/service.go.
pub mod World
pub mod Nodes
pub mod Stages
pub mod Calls
pub mod Provision
pub mod Connect
pub mod Deploy
pub mod Prepare
pub mod Steady
pub mod Ordered
pub mod Execution
pub mod Polling
pub mod Outcome
pub mod Prepared
pub mod Times
