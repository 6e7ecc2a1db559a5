-- ===== src/Application/Coordinator.antt =====
-- src/application/subagent_coordinator.py: the coordinator drives a task graph. Each early return of
-- the source is a branch of its own here. The `data` of a trace entry is left out.
pub mod Tasks
pub mod Joins
pub mod Dispatches
pub mod Stores
pub mod Redelivery
use prism_agent.Prelude.{String, Option, none, some}
use prism_agent.Domain.Events.{RuntimeEvent, EventEnvelope, subagent_task, subagent_completed}
use prism_agent.Application.Effects.{Outside, Action, type_error, throw}
use prism_agent.Application.Coordinator.Tasks.{handle_task}
use prism_agent.Application.Coordinator.Joins.{handle_completed}

module _ (world : Outside) where
  unfoldable pub handle : EventEnvelope → Action (Unit {0})
  handle envelope = elim envelope.event.kind [
    | subagent_task plan_id node_id ↦ handle_task world envelope plan_id node_id
    | subagent_completed plan_id node_id status ↦
        handle_completed world envelope plan_id node_id status
    | _ ↦ throw (type_error "SubAgentCoordinator only handles subagent events.")
  ]
