-- ===== src/Application/DomainHandler/Graphs.antt =====
-- `_handle_orchestrated` of src/application/domain_event_handler.py: the first dispatch of a graph.
use prism_agent.Prelude.{String, Option, none, some, List, [], ◌∷◌, length, is_some, if◌then◌else◌}
use Prim.Native.String.{◌++◌}
use prism_agent.Prelude.Decimal.{decimal}
use prism_agent.Domain.Json.{end}
use prism_agent.Domain.Events.{RuntimeEvent, EventEnvelope, subagent_task, child}
use prism_agent.Domain.Results.{ContextSnapshot}
use prism_agent.Domain.Subtasks.{SubTask, TaskGraph}
use prism_agent.Infrastructure.Registries.{WorkflowDefinition}
use prism_agent.Infrastructure.StateStore.{
  get_task_graph, save_task_graph, save_context_snapshot, claim_ready_nodes,
}
use prism_agent.Application.Effects.{
  Outside, Action, record_run_failed, pure, gets, of_fallible, store, fresh, enqueue, wrapped,
  trace, report, ◌>>=◌, ◌>>◌,
}
use prism_agent.Application.Orchestrator.{build_orchestrated_graph}
use prism_agent.Application.DomainHandler.Reports.{
  start_run, terminal_status, trace_terminal_run_skip,
}

module _ (world : Outside) (envelope : EventEnvelope) where
  abbrev event : RuntimeEvent
  event = envelope.event

  unfoldable pub task_event :
      (workspace_id : String) → Option String → (run_id node_id event_id : String) → RuntimeEvent
  task_event workspace_id project_id run_id node_id event_id = record {
    kind = subagent_task run_id node_id;
    event_id = event_id;
    event_type = "agent.subagent.requested";
    workspace_id = workspace_id;
    project_id = project_id;
    payload = end;
    correlation_id = event.correlation_id;
    causality = child event.causality event.event_id;
    idempotency_key = none;
  }

  -- The graph has the workspace of the context, and the run as its `plan_id`.
  unfoldable pub dispatch_node : TaskGraph → SubTask → Action (Unit {0})
  dispatch_node graph node = do
    event_id ← fresh world
    wrapper ←
        wrapped world
          (task_event graph.workspace_id graph.project_id graph.plan_id node.node_id event_id)
    enqueue world wrapper
    trace event "subagent.dispatched" ("Dispatched subagent node " ++ node.node_id ++ ".")
        (some graph.plan_id) none

  unfoldable pub dispatch_all : TaskGraph → List SubTask → Action (Unit {0})
  dispatch_all graph [] = pure tt
  dispatch_all graph (node ∷ nodes) = do dispatch_node graph node; dispatch_all graph nodes

  unfoldable pub dispatch_ready : TaskGraph → List SubTask → Action (Unit {0})
  dispatch_ready graph [] = do
    let message : String = "Orchestration produced no runnable node."
    report world (record_run_failed graph.workspace_id graph.plan_id message)
    trace event "orchestration.empty" message (some graph.plan_id) none
  dispatch_ready graph (node ∷ nodes) = dispatch_all graph (node ∷ nodes)

  -- `state_store.claim_ready_nodes`
  unfoldable pub claim : (workspace_id run_id : String) → Action (List SubTask)
  claim workspace_id run_id = do
    ready ← gets (λ s. (claim_ready_nodes workspace_id run_id s.store).0)
    store (λ s. (claim_ready_nodes workspace_id run_id s).1)
    pure ready

  unfoldable pub run_graph :
      WorkflowDefinition → ContextSnapshot → String → TaskGraph → Action (Unit {0})
  run_graph workflow snapshot run_id built = do
    let graph : TaskGraph = record built {
      plan_id = run_id;
      context_snapshot_ref = some snapshot.snapshot_id;
    }
    store (save_context_snapshot (record snapshot { plan_id = some run_id }))
    store (save_task_graph graph)
    trace event "orchestration.started"
        ("Orchestrating "
          ++ decimal (length graph.nodes)
          ++ " node(s) for workflow "
          ++ workflow.id
          ++ ".")
        (some run_id) none
    ready ← claim snapshot.context.workspace_id run_id
    dispatch_ready graph ready

  unfoldable pub start_graph :
      WorkflowDefinition → ContextSnapshot → String → Option String → Action (Unit {0})
  start_graph workflow snapshot run_id (some status) =
      trace_terminal_run_skip envelope run_id status
  start_graph workflow snapshot run_id none = do
    fresh_id ← fresh world
    graph ←
        of_fallible (
          build_orchestrated_graph (some world.registries.skills) workflow fresh_id
            snapshot.context)
    run_graph workflow snapshot run_id graph

  unfoldable pub handle_new : WorkflowDefinition → ContextSnapshot → String → Action (Unit {0})
  handle_new workflow snapshot run_id = do
    status ← terminal_status world (start_run world snapshot run_id workflow)
    start_graph workflow snapshot run_id status

  -- `_handle_orchestrated`
  unfoldable pub handle_orchestrated :
      WorkflowDefinition → ContextSnapshot → String → Action (Unit {0})
  handle_orchestrated workflow snapshot run_id = do
    known ← gets (λ s. is_some (get_task_graph s.store snapshot.context.workspace_id run_id))
    if known
        then trace event "orchestration.resumed"
            ("Run " ++ run_id ++ " already orchestrated; ignoring duplicate trigger.") (some run_id)
            none
        else handle_new workflow snapshot run_id
