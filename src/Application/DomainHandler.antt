-- ===== src/Application/DomainHandler.antt =====
-- src/application/domain_event_handler.py: an event that starts or resumes a run. The `data` of a
-- trace entry is left out.
pub mod Reports
pub mod Starts
pub mod Quiet
pub mod Dispatches
pub mod Duplicates
pub mod Plans
pub mod Graphs
use prism_agent.Prelude.{Bool, true, false, Option, none, some, is_empty, if◌then◌else◌}
use Prim.Native.String.{◌++◌}
use prism_agent.Capabilities.Definitions.{OrchestrationDef}
use prism_agent.Domain.AgentRun.{resolve_agent_run_id}
use prism_agent.Domain.Events.{EventEnvelope}
use prism_agent.Infrastructure.Registries.{WorkflowDefinition}
use prism_agent.Application.Effects.{Outside, Action, trace, ◌>>=◌}
use prism_agent.Application.ContextProvider.{hydrate}
use prism_agent.Application.Router.{RouteResult, route}
use prism_agent.Application.DomainHandler.Starts.{handle_linear}
use prism_agent.Application.DomainHandler.Graphs.{handle_orchestrated}

-- `orchestration is not None and orchestration.default_graph`
abbrev pub has_graph : Option OrchestrationDef → Bool
has_graph none = false
has_graph (some o) = if is_empty o.default_graph then false else true

module _ (world : Outside) (envelope : EventEnvelope) where
  unfoldable pub start : WorkflowDefinition → Action (Unit {0})
  start workflow = do
    snapshot ← hydrate world envelope workflow
    let run_id = resolve_agent_run_id world.strip snapshot.context.source_event.event
    if has_graph workflow.orchestration
        then handle_orchestrated world envelope workflow snapshot run_id
        else handle_linear world envelope workflow snapshot run_id

  unfoldable pub ignore : RouteResult → Action (Unit {0})
  ignore result =
      trace envelope.event "event.ignored" ("Ignored event: " ++ result.decision.reason) none none

  unfoldable pub handle_routed : RouteResult → Option WorkflowDefinition → Action (Unit {0})
  handle_routed result none = ignore result
  handle_routed result (some workflow) =
      if result.decision.allowed then start workflow else ignore result

  unfoldable pub handle : Action (Unit {0})
  handle =
      let result = route world.registries.workflows envelope in handle_routed result result.workflow
