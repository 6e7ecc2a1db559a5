-- ===== src/Application/Coordinator/Tasks.antt =====
-- The first half of src/application/subagent_coordinator.py: a task event plans a node, or resumes the
-- sub-plan that it has. With src/application/subagent_runner.py.
use prism_agent.Prelude.{
  String, Bool, true, false, Option, none, some, List, [], ◌∷◌, if◌then◌else◌, ◌==◌,
}
use Prim.Native.String.{◌++◌}
use prism_agent.Domain.Json.{Json, text, array, object, Items, nil, cons, end, field, set}
use prism_agent.Domain.Events.{
  RuntimeEvent, EventEnvelope, EventKind, agent_action, subagent_task, subagent_completed, child,
  text_or,
}
use prism_agent.Domain.Actions.{PlannedAction}
use prism_agent.Domain.Plans.{
  AgentPlan, PlanStatus, planned, running, completed, failed, cancelled, waiting_for_approval,
  replan_required, next_pending_action,
}
use prism_agent.Domain.Subtasks.{
  SubTask, SubTaskStatus, TaskGraph, SubAgentResult, get_node, names_synthesizer,
}
use prism_agent.Domain.Results.{AgentContext, ContextSnapshot}
use prism_agent.Infrastructure.StateStore.{
  get_task_graph, get_plan, save_plan, get_context_snapshot, get_sub_agent_results,
}
use prism_agent.Application.Effects.{
  Outside, Action, record_plan_created, pure, throw, gets, of_fallible, store, fresh, enqueue,
  wrapped, report, ◌>>=◌, ◌>>◌,
}
use prism_agent.Application.Effects
use prism_agent.Application.Orchestrator.{root_node_id}
use prism_agent.Application.Planner.{PlanRequest, create_plan}
use prism_agent.Infrastructure.Registries.{WorkflowDefinition, get_workflow}

abbrev pub subagent_results_key : String
subagent_results_key = "subagent_results"

unfoldable pub sub_plan_id : String → String → String
sub_plan_id agent_run_id node_id = agent_run_id ++ "::" ++ node_id

-- `event.plan_id if hasattr(event, "plan_id") else None`
abbrev pub plan_of : EventKind → Option String
plan_of (agent_action plan_id action_id) = some plan_id
plan_of (subagent_task plan_id node_id) = some plan_id
plan_of (subagent_completed plan_id node_id status) = some plan_id
plan_of _ = none

unfoldable pub trace : RuntimeEvent → (event_name message : String) → Action (Unit {0})
trace event event_name message = Effects.trace event event_name message (plan_of event.kind) none

-- `status.value`
abbrev pub status_name : SubTaskStatus → String
status_name SubTaskStatus.pending = "pending"
status_name SubTaskStatus.running = "running"
status_name SubTaskStatus.completed = "completed"
status_name SubTaskStatus.failed = "failed"

abbrev pub texts : List String → Items
texts [] = nil
texts (t ∷ rest) = cons (text t) (texts rest)

-- `result.model_dump(mode="json")`
unfoldable pub result_json : SubAgentResult → Json
result_json result = object (
    field "node_id" (text result.node_id) (
      field "skill_ids" (array (texts result.skill_ids)) (
        field "summary" (text result.summary) (
          field "structured_output" (object result.structured_output)
            (field "status" (text (status_name result.status)) end)))))

abbrev pub results_json : List SubAgentResult → Items
results_json [] = nil
results_json (result ∷ rest) = cons (result_json result) (results_json rest)

unfoldable pub is_synthesizer : TaskGraph → SubTask → Bool
is_synthesizer graph node = names_synthesizer graph node.node_id

unfoldable pub inject_results : AgentContext → String → String → Action AgentContext
inject_results context workspace_id run_id = do
  results ← gets (λ s. get_sub_agent_results s.store workspace_id run_id)
  pure (record context {
    entities = set context.entities subagent_results_key (array (results_json results));
  })

-- An event that continues the one of an envelope, for the run of a graph.
unfoldable pub graph_event : EventEnvelope → TaskGraph → String → EventKind → String → RuntimeEvent
graph_event envelope graph event_id kind event_type = record {
  kind = kind;
  event_id = event_id;
  event_type = event_type;
  workspace_id = graph.workspace_id;
  project_id = graph.project_id;
  payload = end;
  correlation_id = envelope.event.correlation_id;
  causality = child envelope.event.causality envelope.event.event_id;
  idempotency_key = none;
}

-- `node.skill_ids or None`
abbrev pub list_or_none : List String → Option (List String)
list_or_none [] = none
list_or_none (t ∷ rest) = some (t ∷ rest)

abbrev pub text_or_none : String → Option String
text_or_none t = if t == "" then none else some t

abbrev pub whole_request : AgentContext → String → WorkflowDefinition → String → PlanRequest
whole_request context snapshot_ref workflow agent_run_id = record {
  context = context;
  context_snapshot_ref = snapshot_ref;
  workflow = workflow;
  agent_run_id = agent_run_id;
  plan_id = none;
  skill_ids = none;
  context_scope = none;
  model_tier = none;
}

-- The request that `plan_for_node` makes: the root node is planned with no scope of its own.
unfoldable pub node_request :
    SubTask → AgentContext → String → WorkflowDefinition → String → PlanRequest
node_request node context snapshot_ref workflow agent_run_id =
    if node.node_id == root_node_id
    then whole_request context snapshot_ref workflow agent_run_id
    else record (whole_request context snapshot_ref workflow agent_run_id) {
      plan_id = some (sub_plan_id agent_run_id node.node_id);
      skill_ids = list_or_none node.skill_ids;
      context_scope = list_or_none node.context_scope;
      model_tier = text_or_none node.model_tier;
    }

unfoldable pub node_plan : SubTask → String → AgentPlan → AgentPlan
node_plan node agent_run_id plan =
    if node.node_id == root_node_id
    then plan
    else record plan { parent_run_id = some agent_run_id; node_id = some node.node_id }

unfoldable pub plan_for_node :
    Outside → SubTask → AgentContext → String → WorkflowDefinition → String → Action AgentPlan
plan_for_node world node context snapshot_ref workflow run_id = do
  plan ← create_plan world (node_request node context snapshot_ref workflow run_id)
  pure (node_plan node run_id plan)

-- The nodes that a task event skips.
abbrev pub is_ended : SubTaskStatus → Bool
is_ended SubTaskStatus.completed = true
is_ended SubTaskStatus.failed = true
is_ended _ = false

-- How a sub-plan with no next action settles its node, and the words of the trace entry. `None`
-- leaves the node in flight.
abbrev pub settles_as : PlanStatus → Option (String × String)
settles_as planned = some ("completed", "completed")
settles_as running = none
settles_as completed = some ("completed", "completed")
settles_as failed = some ("failed", "failed")
settles_as cancelled = some ("failed", "failed")
settles_as waiting_for_approval = some ("waiting", "waiting_for_approval")
settles_as replan_required = some ("failed", "failed")

module _ (world : Outside) (envelope : EventEnvelope) where
  abbrev event : RuntimeEvent
  event = envelope.event

  unfoldable pub enqueue_action : AgentPlan → PlannedAction → Action (Unit {0})
  enqueue_action sub_plan action = do
    event_id ← fresh world
    wrapper ← wrapped world (record {
      kind = agent_action sub_plan.plan_id action.action_id;
      event_id = event_id;
      event_type = "agent.action.requested";
      workspace_id = sub_plan.workspace_id;
      project_id = sub_plan.project_id;
      payload = end;
      correlation_id = event.correlation_id;
      causality = child event.causality event.event_id;
      idempotency_key = none;
    })
    enqueue world wrapper

  unfoldable pub enqueue_completed : TaskGraph → String → String → Action (Unit {0})
  enqueue_completed graph node_id status = do
    event_id ← fresh world
    wrapper ← wrapped world (
        graph_event envelope graph event_id (subagent_completed graph.plan_id node_id status)
          "agent.subagent.completed")
    enqueue world wrapper

  unfoldable pub resume_settled : TaskGraph → SubTask → Option (String × String) → Action (Unit {0})
  resume_settled graph node none =
      trace event "subagent.in_flight"
        ("Subagent node " ++ node.node_id ++ " already has an in-flight sub-plan.")
  resume_settled graph node (some (word, status)) = do
    trace event "subagent.resumed"
        ("Resumed " ++ word ++ " subagent node " ++ node.node_id ++ " from existing sub-plan.")
    enqueue_completed graph node.node_id status

  unfoldable pub resume_with :
      TaskGraph → SubTask → AgentPlan → Option PlannedAction → Action (Unit {0})
  resume_with graph node sub_plan none = resume_settled graph node (settles_as sub_plan.status)
  resume_with graph node sub_plan (some next_action) = do
    enqueue_action sub_plan next_action
    trace event "subagent.resumed"
        ("Resumed subagent node " ++ node.node_id ++ " from existing sub-plan.")

  unfoldable pub resume_existing_subplan : TaskGraph → SubTask → AgentPlan → Action (Unit {0})
  resume_existing_subplan graph node sub_plan =
      resume_with graph node sub_plan (next_pending_action sub_plan)

  unfoldable pub start_first :
      TaskGraph → SubTask → AgentPlan → Option PlannedAction → Action (Unit {0})
  start_first graph node sub_plan none = do
    trace event "subagent.empty"
        ("Subagent node " ++ node.node_id ++ " produced no actions; settling completed.")
    enqueue_completed graph node.node_id "completed"
  start_first graph node sub_plan (some first_action) = do
    enqueue_action sub_plan first_action
    trace event "subagent.started"
        ("Started subagent node " ++ node.node_id ++ " (sub-plan " ++ sub_plan.plan_id ++ ").")

  unfoldable pub node_context : TaskGraph → SubTask → String → AgentContext → Action AgentContext
  node_context graph node run_id context =
      if is_synthesizer graph node
      then inject_results context event.workspace_id run_id
      else pure context

  unfoldable pub plan_node :
      TaskGraph → SubTask → String → Option ContextSnapshot → Action (Unit {0})
  plan_node graph node run_id none =
      trace event "orchestration.context_missing" ("No context for run " ++ run_id ++ ".")
  plan_node graph node run_id (some snapshot) = do
    context ← node_context graph node run_id snapshot.context
    workflow ← of_fallible (get_workflow world.registries.workflows context.workflow_id)
    trace event "subagent.planning" ("Planning subagent node " ++ node.node_id ++ ".")
    sub_plan ← plan_for_node world node context snapshot.snapshot_id workflow run_id
    store (save_plan sub_plan)
    report world (record_plan_created sub_plan context)
    start_first graph node sub_plan (next_pending_action sub_plan)

  unfoldable pub with_sub_plan : TaskGraph → SubTask → String → Option AgentPlan → Action (Unit {0})
  with_sub_plan graph node run_id (some existing) = resume_existing_subplan graph node existing
  with_sub_plan graph node run_id none = do
    snapshot ← gets (λ s.
        get_context_snapshot s.store event.workspace_id (text_or graph.context_snapshot_ref ""))
    plan_node graph node run_id snapshot

  unfoldable pub task_of : TaskGraph → String → String → Option SubTask → Action (Unit {0})
  task_of graph run_id node_id none =
      trace event "orchestration.node_missing" ("Unknown node " ++ node_id ++ ".")
  task_of graph run_id node_id (some node) =
      if is_ended node.status
      then trace event "subagent.skipped" (
          "Node "
          ++ node.node_id
          ++ " already "
          ++ status_name node.status
          ++ "; skipping duplicate task.")
      else (do
        existing ← gets (λ s. get_plan s.store event.workspace_id (sub_plan_id run_id node.node_id))
        with_sub_plan graph node run_id existing)

  unfoldable pub task_in : Option TaskGraph → String → String → Action (Unit {0})
  task_in none run_id node_id =
      trace event "orchestration.graph_missing" ("No task graph for run " ++ run_id ++ ".")
  task_in (some graph) run_id node_id = task_of graph run_id node_id (get_node graph node_id)

  -- `_handle_task`
  unfoldable pub handle_task : String → String → Action (Unit {0})
  handle_task run_id node_id = do
    graph ← gets (λ s. get_task_graph s.store event.workspace_id run_id)
    task_in graph run_id node_id
