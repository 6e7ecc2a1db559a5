-- ===== src/Tests/Coordinator.antt =====
-- The coordinator on the graph of `Samples`: node a is completed, and b is dispatched.
use prism_agent.Prelude.{◌≡◌, refl, some, [], ◌∷◌, ◌++◌, lookup}
use mathlib.Core.List.{filter_map}
use prism_agent.Domain.Events.{EventEnvelope, subagent_completed, subagent_task}
use prism_agent.Domain.Subtasks.{
  SubTaskStatus, plan_advance, advance_from, record_status, after_completion, finish, ready_nodes,
  completed_node_ids, start_all, current_nodes, with_node_status, names_synthesizer,
  synthesizer_named, get_node, first_of_node, is_unblocked, all_nodes_completed,
}
use prism_agent.Infrastructure.StateStore.{get_task_graph, advance_task_graph}
use prism_agent.Application.Effects.{Runtime}
use prism_agent.Application.Coordinator.Joins.{handle_completed, terminal_status}
use prism_agent.Application.Coordinator.Tasks.{handle_task}
use prism_agent.Application.Effects.Sends.{queued}
use prism_agent.Application.Coordinator.Dispatches.{tasks_of, handle_completed-queued}
use prism_agent.Application.Coordinator.Stores.{
  handle_task-task_graphs, handle_completed-task_graphs,
}
use prism_agent.Application.Coordinator.Redelivery.{handle_completed-handle_completed}
use prism_agent.Tests.Samples.{node, event, envelope_of, started_graph, ready_runtime, world}

abbrev completion : EventEnvelope
completion =
    envelope_of (event (subagent_completed "run" "a" "completed") "agent.subagent.completed")

abbrev task : EventEnvelope
task = envelope_of (event (subagent_task "run" "a") "agent.subagent.requested")

abbrev graph_runtime : Runtime
graph_runtime = record ready_runtime {
  store = record ready_runtime.store { task_graphs = (("w", "run"), started_graph) ∷ [] };
}

graph_runtime-found : get_task_graph graph_runtime.store "w" "run" ≡ some started_graph
unfolding get_task_graph lookup
graph_runtime-found = refl

started_graph-found : get_node started_graph "a" ≡ some (node "a" [] SubTaskStatus.running)
unfolding get_node first_of_node
started_graph-found = refl

handle_completed-queued_example :
    queued (handle_completed world completion "run" "a" "completed" graph_runtime).1
    ≡ queued graph_runtime
      ++ tasks_of world completion "run" "a"
          (plan_advance started_graph "a" (terminal_status "completed"))
handle_completed-queued_example =
    handle_completed-queued world completion "run" "a" "completed" graph_runtime started_graph refl
      graph_runtime-found

handle_completed-task_graphs_example :
    (handle_completed world completion "run" "a" "completed" graph_runtime).1.store.task_graphs
    ≡ (advance_task_graph "w" "run" "a"
        (terminal_status "completed")
        graph_runtime.store).1.task_graphs
handle_completed-task_graphs_example =
    handle_completed-task_graphs world completion "run" "a" "completed" graph_runtime refl

handle_task-task_graphs_example :
    (handle_task world task "run" "a" graph_runtime).1.store.task_graphs
    ≡ graph_runtime.store.task_graphs
handle_task-task_graphs_example = handle_task-task_graphs world task "run" "a" graph_runtime

handle_completed-handle_completed_example :
    let s' = (handle_completed world completion "run" "a" "completed" graph_runtime).1 in
    queued (handle_completed world completion "run" "a" "completed" s').1 ≡ queued s'
handle_completed-handle_completed_example =
    handle_completed-handle_completed world completion "run" "a" "completed" graph_runtime
      started_graph (node "a" [] SubTaskStatus.running) refl graph_runtime-found refl
      started_graph-found

-- The completion of a dispatches b.
dispatched_tasks :
    tasks_of world completion "run" "a"
      (plan_advance started_graph "a" (terminal_status "completed"))
    ≡ subagent_task "run" "b" ∷ []
unfolding plan_advance advance_from record_status after_completion finish ready_nodes
    completed_node_ids start_all current_nodes with_node_status names_synthesizer synthesizer_named
    get_node first_of_node is_unblocked all_nodes_completed filter_map
dispatched_tasks = refl
