-- ===== src/Application.antt =====
-- The use cases of src/application.
pub mod Router
pub mod ContextProvider
pub mod Effects
pub mod Validator
pub mod Orchestrator
pub mod Planner
pub mod ActionHandler
pub mod Coordinator
pub mod DomainHandler
pub mod RunSync
pub mod Provisioning
pub mod Runner
