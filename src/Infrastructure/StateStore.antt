-- ===== src/Infrastructure/StateStore.antt =====
-- src/infrastructure/state/memory_state_store.py.
use prism_agent.Prelude.{
  String, Bool, Option, none, some, List, [], ◌∷◌, ◌++◌, map, Dict, Key, lookup, insert, elem,
  if◌then◌else◌, string_eq, pair_eq,
}
use prism_agent.Domain.Actions.{ActionStatus, PlannedAction, with_status}
use prism_agent.Domain.Plans.{AgentPlan, get_action, replace_action}
use prism_agent.Domain.Subtasks.{
  SubTask, SubTaskStatus, TaskGraph, TaskGraphAdvance, SubAgentResult, claim_ready, plan_advance,
}
use prism_agent.Domain.Results.{ContextSnapshot, ToolResult, TraceEvent}

pub record MemoryStateStore : Type 0 where
  pub plans : Dict Key AgentPlan
  pub task_graphs : Dict Key TaskGraph
  pub sub_agent_results : Dict Key (Dict String SubAgentResult)
  pub context_snapshots : Dict Key ContextSnapshot
  pub action_results : Dict Key ToolResult
  pub traces : List TraceEvent
  pub idempotency_keys : List String

abbrev pub empty : MemoryStateStore
empty = record {
  plans = [];
  task_graphs = [];
  sub_agent_results = [];
  context_snapshots = [];
  action_results = [];
  traces = [];
  idempotency_keys = [];
}

unfoldable pub save_plan : AgentPlan → MemoryStateStore → MemoryStateStore
save_plan plan store = record store {
  plans = insert (plan.workspace_id, plan.plan_id) plan store.plans;
}

unfoldable pub get_plan : MemoryStateStore → String → String → Option AgentPlan
get_plan store workspace_id plan_id = lookup (workspace_id, plan_id) store.plans

-- `update_plan` saves the plan.
abbrev pub update_plan : AgentPlan → MemoryStateStore → MemoryStateStore
update_plan = save_plan

unfoldable pub save_task_graph : TaskGraph → MemoryStateStore → MemoryStateStore
save_task_graph graph store = record store {
  task_graphs = insert (graph.workspace_id, graph.plan_id) graph store.task_graphs;
}

unfoldable pub get_task_graph : MemoryStateStore → String → String → Option TaskGraph
get_task_graph store workspace_id plan_id = lookup (workspace_id, plan_id) store.task_graphs

abbrev pub results_or_empty : Option (Dict String SubAgentResult) → Dict String SubAgentResult
results_or_empty none = []
results_or_empty (some results) = results

unfoldable pub save_sub_agent_result :
    String → String → SubAgentResult → MemoryStateStore → MemoryStateStore
save_sub_agent_result workspace_id run_id result store = record store {
  sub_agent_results =
      insert (workspace_id, run_id)
        (insert result.node_id result
          (results_or_empty (lookup (workspace_id, run_id) store.sub_agent_results)))
        store.sub_agent_results;
}

unfoldable pub get_sub_agent_results : MemoryStateStore → String → String → List SubAgentResult
get_sub_agent_results store workspace_id run_id =
    map (λ entry. entry.1)
      (results_or_empty (lookup (workspace_id, run_id) store.sub_agent_results))

abbrev pub claim_in : Option TaskGraph → MemoryStateStore → List SubTask × MemoryStateStore
claim_in none store = ([], store)
claim_in (some graph) store =
    let (started, claimed) = claim_ready graph in (claimed, save_task_graph started store)

unfoldable pub claim_ready_nodes :
    String → String → MemoryStateStore → List SubTask × MemoryStateStore
claim_ready_nodes workspace_id run_id store =
    claim_in (get_task_graph store workspace_id run_id) store

abbrev pub advance_in :
    Option TaskGraph
    → String
    → SubTaskStatus
    → MemoryStateStore
    → Option TaskGraphAdvance × MemoryStateStore
advance_in none node_id status store = (none, store)
advance_in (some graph) node_id status store =
    let advance = plan_advance graph node_id status in
    (some advance, save_task_graph advance.graph store)

unfoldable pub advance_task_graph :
    String
    → String
    → String
    → SubTaskStatus
    → MemoryStateStore
    → Option TaskGraphAdvance × MemoryStateStore
advance_task_graph workspace_id run_id node_id status store =
    advance_in (get_task_graph store workspace_id run_id) node_id status store

unfoldable pub save_context_snapshot : ContextSnapshot → MemoryStateStore → MemoryStateStore
save_context_snapshot snapshot store = record store {
  context_snapshots =
      insert (snapshot.workspace_id, snapshot.snapshot_id) snapshot store.context_snapshots;
}

unfoldable pub get_context_snapshot : MemoryStateStore → String → String → Option ContextSnapshot
get_context_snapshot store workspace_id snapshot_ref =
    lookup (workspace_id, snapshot_ref) store.context_snapshots

unfoldable pub save_action_result : ToolResult → MemoryStateStore → MemoryStateStore
save_action_result result store = record store {
  action_results = insert (result.plan_id, result.action_id) result store.action_results;
}

unfoldable pub get_action_result : MemoryStateStore → String → String → Option ToolResult
get_action_result store plan_id action_id = lookup (plan_id, action_id) store.action_results

unfoldable pub append_trace_event : TraceEvent → MemoryStateStore → MemoryStateStore
append_trace_event entry store = record store { traces = store.traces ++ entry ∷ [] }

abbrev pub complete_in : AgentPlan → Option PlannedAction → MemoryStateStore → MemoryStateStore
complete_in plan none store = store
complete_in plan (some action) store =
    update_plan (replace_action plan (with_status action ActionStatus.completed)) store

abbrev pub complete_in_plan : Option AgentPlan → String → MemoryStateStore → MemoryStateStore
complete_in_plan none action_id store = store
complete_in_plan (some plan) action_id store = complete_in plan (get_action plan action_id) store

unfoldable pub mark_action_completed :
    String → String → String → MemoryStateStore → MemoryStateStore
mark_action_completed workspace_id plan_id action_id store =
    complete_in_plan (get_plan store workspace_id plan_id) action_id store

unfoldable pub check_idempotency_key : MemoryStateStore → String → Bool
check_idempotency_key store key = elem key store.idempotency_keys

-- `set.add`
unfoldable pub record_idempotency_key : String → MemoryStateStore → MemoryStateStore
record_idempotency_key key store = record store {
  idempotency_keys =
      (if elem key store.idempotency_keys
        then store.idempotency_keys
        else key ∷ store.idempotency_keys);
}
