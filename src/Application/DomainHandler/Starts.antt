-- ===== src/Application/DomainHandler/Starts.antt =====
-- The run of a workflow that has no graph: `handle` of src/application/domain_event_handler.py from the
-- lookup of an existing plan on.
use prism_agent.Prelude.{String, Bool, true, false, ◌&&◌, Option, none, some, if◌then◌else◌}
use Prim.Native.String.{◌++◌}
use prism_agent.Domain.Json.{Json, object, end, get}
use prism_agent.Domain.Events.{RuntimeEvent, EventEnvelope, agent_action, child}
use prism_agent.Domain.Actions.{PlannedAction}
use prism_agent.Domain.Plans.{AgentPlan, PlanStatus, next_pending_action}
use prism_agent.Domain.Results.{ContextSnapshot}
use prism_agent.Domain.Subtasks.{TaskGraph}
use prism_agent.Infrastructure.Registries.{WorkflowDefinition}
use prism_agent.Infrastructure.StateStore.{
  get_plan, save_plan, update_plan, save_task_graph, save_context_snapshot,
}
use prism_agent.Application.Effects.{
  Outside, Action, record_run_failed, record_plan_created, gets, store, fresh, enqueue, wrapped,
  trace, report, try_except, ◌>>=◌, ◌>>◌,
}
use prism_agent.Application.Orchestrator.{build_task_graph, root_node}
use prism_agent.Application.Coordinator.Tasks.{plan_for_node}
use prism_agent.Application.DomainHandler.Reports.{
  start_run, resume_run, terminal_status, report_failure, trace_terminal_run_skip,
}

-- `status.value`
abbrev pub status_name : PlanStatus → String
status_name PlanStatus.planned = "planned"
status_name PlanStatus.running = "running"
status_name PlanStatus.completed = "completed"
status_name PlanStatus.failed = "failed"
status_name PlanStatus.cancelled = "cancelled"
status_name PlanStatus.waiting_for_approval = "waiting_for_approval"
status_name PlanStatus.replan_required = "replan_required"

abbrev is_object : Option Json → Bool
is_object (some (object _)) = true
is_object _ = false

-- `_replan_requested`
unfoldable pub replan_requested : EventEnvelope → Bool
replan_requested envelope = is_object (get envelope.event.payload "_agent_replan")

abbrev wants_replan : PlanStatus → Bool
wants_replan PlanStatus.replan_required = true
wants_replan _ = false

abbrev pub should_replan : EventEnvelope → Option AgentPlan → Bool
should_replan envelope none = false
should_replan envelope (some plan) = wants_replan plan.status && replan_requested envelope

-- A plan with no next action that is not a failure of the planner.
abbrev pub is_settled : PlanStatus → Bool
is_settled PlanStatus.planned = false
is_settled PlanStatus.running = false
is_settled _ = true

abbrev pub empty_message : String
empty_message = "Planner produced no executable actions after retry attempts."

module _ (world : Outside) (envelope : EventEnvelope) where
  abbrev event : RuntimeEvent
  event = envelope.event

  unfoldable pub enqueue_first : AgentPlan → PlannedAction → Action (Unit {0})
  enqueue_first plan action = do
    event_id ← fresh world
    wrapper ← wrapped world (record {
      kind = agent_action plan.plan_id action.action_id;
      event_id = event_id;
      event_type = "agent.action.requested";
      workspace_id = plan.workspace_id;
      project_id = plan.project_id;
      payload = end;
      correlation_id = event.correlation_id;
      causality = child event.causality event.event_id;
      idempotency_key = none;
    })
    enqueue world wrapper
    trace event "action.enqueued" ("Enqueued first action " ++ action.action_id) (some plan.plan_id)
        (some action.action_id)

  unfoldable pub fail_empty : AgentPlan → Action (Unit {0})
  fail_empty plan = do
    store (update_plan (record plan { status = PlanStatus.failed }))
    report world (record_run_failed plan.workspace_id plan.plan_id empty_message)
    trace event "plan.empty" "Planner produced no executable actions." (some plan.plan_id) none
    trace event "plan.failed" empty_message (some plan.plan_id) none

  unfoldable pub first_step : AgentPlan → Option PlannedAction → Action (Unit {0})
  first_step plan (some action) = enqueue_first plan action
  first_step plan none =
      if is_settled plan.status
      then trace event "plan.no_pending_actions"
          ("Plan "
            ++ plan.plan_id
            ++ " has no executable actions in status "
            ++ status_name plan.status
            ++ ".")
          (some plan.plan_id) none
      else fail_empty plan

  unfoldable pub continue_plan : AgentPlan → Action (Unit {0})
  continue_plan plan = first_step plan (next_pending_action plan)

  module _ (workflow : WorkflowDefinition) (snapshot : ContextSnapshot) (run_id : String) where
    unfoldable pub save_snapshot : AgentPlan → Action (Unit {0})
    save_snapshot plan =
        store (save_context_snapshot (record snapshot { plan_id = some plan.plan_id }))

    unfoldable pub resume_plan : AgentPlan → Action (Unit {0})
    resume_plan plan = do
      save_snapshot plan
      trace event "plan.resumed"
          ("Resumed plan " ++ plan.plan_id ++ " for workflow " ++ workflow.id) (some plan.plan_id)
          none
      continue_plan plan

    -- The inner `try`: the graph of one node is stored, and its node planned.
    unfoldable pub plan_root : Action AgentPlan
    plan_root = do
      fresh_id ← fresh world
      let graph : TaskGraph = record (build_task_graph fresh_id snapshot.context workflow) {
        plan_id = run_id;
      }
      store (save_task_graph graph)
      plan_for_node world (root_node workflow) snapshot.context snapshot.snapshot_id workflow run_id

    abbrev created : Bool → AgentPlan → String × String
    created true plan =
        ("plan.replanned", "Replanned run " ++ plan.plan_id ++ " for workflow " ++ workflow.id)
    created false plan =
        ("plan.created", "Created plan " ++ plan.plan_id ++ " for workflow " ++ workflow.id)

    unfoldable pub plan_run : Bool → Option String → Action (Unit {0})
    plan_run replanned (some status) = trace_terminal_run_skip envelope run_id status
    plan_run replanned none = do
      plan ← try_except plan_root (report_failure world snapshot.context.workspace_id run_id)
      save_snapshot plan
      store (save_plan plan)
      report world (record_plan_created plan snapshot.context)
      trace event (created replanned plan).0 (created replanned plan).1 (some plan.plan_id) none
      continue_plan plan

    -- What is reported before a run is planned.
    unfoldable pub announce : Bool → Action (Unit {0})
    announce true = do
      resume_run world snapshot run_id
      trace event "plan.replanning" ("Replanning run " ++ run_id ++ " for workflow " ++ workflow.id)
          (some run_id) none
    announce false = start_run world snapshot run_id workflow

    unfoldable pub plan_new : Bool → Action (Unit {0})
    plan_new replanned = do
      status ← terminal_status world (announce replanned)
      plan_run replanned status

    unfoldable pub with_existing : Option AgentPlan → Action (Unit {0})
    with_existing none = plan_new false
    with_existing (some plan) =
        if should_replan envelope (some plan) then plan_new true else resume_plan plan

    -- `handle` from `existing_plan = ...` on.
    unfoldable pub handle_linear : Action (Unit {0})
    handle_linear = do
      existing ← gets (λ s. get_plan s.store snapshot.context.workspace_id run_id)
      with_existing existing
