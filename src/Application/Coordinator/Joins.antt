-- ===== src/Application/Coordinator/Joins.antt =====
-- The second half of src/application/subagent_coordinator.py: a completed node advances the graph of
-- its run, its result is stored, and the nodes that became ready are dispatched.
use prism_agent.Prelude.{
  ℕ, suc, String, Bool, not, ◌&&◌, ◌||◌, Option, none, some, List, [], ◌∷◌, if◌then◌else◌, ◌==◌,
}
use Prim.Native.String.{◌++◌}
use prism_agent.Domain.Json.{Json, integer, text, object, Fields, end, field, get, set, is_true}
use prism_agent.Domain.Events.{RuntimeEvent, EventEnvelope, subagent_task}
use prism_agent.Domain.Actions.{PlannedAction}
use prism_agent.Domain.Plans.{AgentPlan}
use prism_agent.Domain.Results.{ToolResult}
use prism_agent.Domain.Subtasks.{
  SubTask, SubTaskStatus, TaskGraph, TaskGraphAdvance, SubAgentResult, status_eq,
}
use prism_agent.Infrastructure.StateStore.{
  MemoryStateStore, get_plan, get_action_result, save_sub_agent_result, advance_task_graph,
}
use prism_agent.Application.Effects.{
  Outside, Action, record_run_failed, record_run_completed_by_id, pure, gets, store, fresh, enqueue,
  wrapped, report, ◌>>=◌, ◌>>◌,
}
use prism_agent.Application.Coordinator.Tasks.{sub_plan_id, trace, graph_event}

abbrev pub field_count : Fields → ℕ
field_count end = 0
field_count (field k v rest) = suc (field_count rest)

abbrev pub note_output : String → Option ToolResult → Fields → Fields
note_output tool_name none outputs = outputs
note_output tool_name (some result) outputs = set outputs tool_name (object result.output)

-- The outputs of the stored results of some actions, under the names of their tools.
unfoldable pub outputs_of : MemoryStateStore → String → List PlannedAction → Fields → Fields
outputs_of s plan_id [] outputs = outputs
outputs_of s plan_id (action ∷ actions) outputs =
    outputs_of s plan_id actions
      (note_output action.tool_name (get_action_result s plan_id action.action_id) outputs)

-- `SubTaskStatus.COMPLETED if event.status == "completed" else SubTaskStatus.FAILED`
abbrev pub terminal_status : String → SubTaskStatus
terminal_status status =
    if status == "completed" then SubTaskStatus.completed else SubTaskStatus.failed

module _ (world : Outside) where
  unfoldable pub build_result : MemoryStateStore → String → Option AgentPlan → SubAgentResult
  build_result s node_id none = record {
    node_id = node_id;
    skill_ids = [];
    summary = "";
    structured_output = end;
    status = SubTaskStatus.completed;
  }
  build_result s node_id (some sub_plan) =
      let outputs = outputs_of s sub_plan.plan_id sub_plan.actions end in
      record {
        node_id = node_id;
        skill_ids = sub_plan.skill_ids;
        summary =
            node_id ++ ": completed " ++ world.str (integer (field_count outputs)) ++ " action(s).";
        structured_output = field "outputs" (object outputs) end;
        status = SubTaskStatus.completed;
      }

  unfoldable pub store_result : String → String → String → Action (Unit {0})
  store_result workspace_id run_id node_id = do
    sub_plan ← gets (λ s. get_plan s.store workspace_id (sub_plan_id run_id node_id))
    result ← gets (λ s. build_result s.store node_id sub_plan)
    store (save_sub_agent_result workspace_id run_id result)

  -- `str(message)`
  abbrev pub str_of : Json → String
  str_of (text t) = t
  str_of v = world.str v

  -- `str(event.payload.get("message") or "subagent_failed")`
  abbrev pub failure_message : Option Json → String
  failure_message none = "subagent_failed"
  failure_message (some message) = if is_true message then str_of message else "subagent_failed"

  module _ (envelope : EventEnvelope) where
    abbrev event : RuntimeEvent
    event = envelope.event

    unfoldable pub dispatch_node : TaskGraph → SubTask → Action (Unit {0})
    dispatch_node graph node = do
      event_id ← fresh world
      wrapper ← wrapped world (
          graph_event envelope graph event_id (subagent_task graph.plan_id node.node_id)
            "agent.subagent.requested")
      enqueue world wrapper
      trace event "subagent.dispatched" ("Dispatched subagent node " ++ node.node_id ++ ".")

    unfoldable pub dispatch_nodes : TaskGraph → List SubTask → Action (Unit {0})
    dispatch_nodes graph [] = pure tt
    dispatch_nodes graph (node ∷ nodes) = do dispatch_node graph node; dispatch_nodes graph nodes

    unfoldable pub dispatch_synthesizer_of : TaskGraph → Option SubTask → Action (Unit {0})
    dispatch_synthesizer_of graph none = pure tt
    dispatch_synthesizer_of graph (some node) = dispatch_node graph node

    unfoldable pub end_completed : String → Bool → Action (Unit {0})
    end_completed run_id b =
        if b
        then (do
          report world (record_run_completed_by_id event.workspace_id run_id)
          trace event "orchestration.completed" ("Run " ++ run_id ++ " completed."))
        else pure tt

    unfoldable pub end_blocked : String → Bool → Action (Unit {0})
    end_blocked run_id b =
        if b
        then (do
          report world (record_run_failed event.workspace_id run_id "orchestration_blocked")
          trace event "orchestration.blocked"
              ("Run " ++ run_id ++ " blocked: no runnable node and not all complete."))
        else pure tt

    unfoldable pub fail_run : String → String → Action (Unit {0})
    fail_run run_id node_id = do
      let message = failure_message (get event.payload "message")
      report world (record_run_failed event.workspace_id run_id message)
      trace event "orchestration.failed"
          ("Run " ++ run_id ++ " failed at node " ++ node_id ++ ": " ++ message)

    unfoldable pub go_on : String → TaskGraphAdvance → Action (Unit {0})
    go_on run_id advance = do
      dispatch_nodes advance.graph advance.newly_ready
      dispatch_synthesizer_of advance.graph advance.dispatch_synthesizer
      end_completed run_id advance.run_completed
      end_blocked run_id advance.blocked

    unfoldable pub store_if : Bool → String → String → Action (Unit {0})
    store_if b run_id node_id =
        if b then store_result event.workspace_id run_id node_id else pure tt

    unfoldable pub join_advance :
        String → String → SubTaskStatus → Option TaskGraphAdvance → Action (Unit {0})
    join_advance run_id node_id status none =
        trace event "orchestration.graph_missing" ("No task graph for run " ++ run_id ++ ".")
    join_advance run_id node_id status (some advance) =
        if advance.already_processed
        then trace event "orchestration.duplicate"
            ("Ignored duplicate completion for node " ++ node_id ++ ".")
        else (do
          store_if (status_eq status SubTaskStatus.completed && not advance.is_synthesizer) run_id
              node_id
          if advance.run_failed then fail_run run_id node_id else go_on run_id advance)

    -- `state_store.advance_task_graph`
    unfoldable pub advance_graph :
        String → String → SubTaskStatus → Action (Option TaskGraphAdvance)
    advance_graph run_id node_id status = do
      advance ← gets (λ s. (advance_task_graph event.workspace_id run_id node_id status s.store).0)
      store (λ s. (advance_task_graph event.workspace_id run_id node_id status s).1)
      pure advance

    -- `_handle_completed`
    unfoldable pub handle_completed : String → String → String → Action (Unit {0})
    handle_completed run_id node_id status =
        if not (status == "completed" || status == "failed")
        then trace event "orchestration.waiting"
            ("Run " ++ run_id ++ " paused at node " ++ node_id ++ " (" ++ status ++ ").")
        else (do
          advance ← advance_graph run_id node_id (terminal_status status)
          join_advance run_id node_id (terminal_status status) advance)
