-- ===== src/Domain.antt =====
-- The pure models of src/domain.
pub mod AgentRun
pub mod Provisioning
pub mod Backlog
pub mod Json
pub mod Events
pub mod Actions
pub mod Plans
pub mod Subtasks
pub mod Results
pub mod Policies
