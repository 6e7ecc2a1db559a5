-- ===== src/Application/Coordinator/Redelivery.antt =====
-- A completion that the queue delivers twice.
use prism_agent.Prelude.{
  String, arith, ◌≡◌, ◌∙◌, refl, ap, true, ◌||◌, Option, none, some, List, [], ◌∷◌, ◌++◌, ◌==◌,
  string_eq, pair_eq, Key, lookup, lookup-insert_self,
}
use mathlib.Core.List.{append-nil}
use prism_agent.Domain.Events.{EventEnvelope}
use prism_agent.Domain.Subtasks.{
  SubTask, SubTaskStatus, TaskGraph, get_node, with_node_status, start_all, finish,
  after_completion, record_status, advance_from, plan_advance, ready_nodes, completed_node_ids,
}
use prism_agent.Domain.Subtasks.Idempotence.{plan_advance-plan_advance}
use prism_agent.Infrastructure.StateStore.{
  MemoryStateStore, save_task_graph, get_task_graph, advance_task_graph,
}
use prism_agent.Application.Effects.{Outside, Runtime}
use prism_agent.Application.Coordinator.Joins.{terminal_status, handle_completed}
use prism_agent.Application.Effects.Sends.{queued}
use prism_agent.Application.Coordinator.Dispatches.{tasks_of, handle_completed-queued}
use prism_agent.Application.Coordinator.Stores.{handle_completed-task_graphs}

-- The key that a graph is stored under.
abbrev pub graph_key : TaskGraph → Key
graph_key g = (g.workspace_id, g.plan_id)

pub graph_key-start_all :
    (g : TaskGraph) (ready : List SubTask) → graph_key (start_all g ready) ≡ graph_key g
unfolding start_all with_node_status
graph_key-start_all g [] = refl
graph_key-start_all g (n ∷ ready) =
    graph_key-start_all (with_node_status g n.node_id SubTaskStatus.running) ready

graph_key-finish : (g : TaskGraph) (o : Option SubTask) → graph_key (finish g o).graph ≡ graph_key g
unfolding finish with_node_status
graph_key-finish g none = refl
graph_key-finish g (some n) = grind arith

graph_key-after_completion : (g : TaskGraph) → graph_key (after_completion g).graph ≡ graph_key g
unfolding after_completion
graph_key-after_completion g = grind (
  arith,
  graph_key-finish g g.synthesizer_node,
  graph_key-start_all g (ready_nodes g (completed_node_ids g)),
)

graph_key-record_status :
    (g : TaskGraph) (i : String) (s : SubTaskStatus)
    → graph_key (record_status g i s).graph ≡ graph_key g
unfolding record_status with_node_status
graph_key-record_status g i s = grind (arith, graph_key-after_completion (with_node_status g i s))

graph_key-advance_from :
    (g : TaskGraph) (i : String) (s : SubTaskStatus) (o : Option SubTask)
    → graph_key (advance_from g i s o).graph ≡ graph_key g
unfolding advance_from
graph_key-advance_from g i s none = refl
graph_key-advance_from g i s (some n) = grind (arith, graph_key-record_status g i s)

graph_key-plan_advance :
    (g : TaskGraph) (i : String) (s : SubTaskStatus)
    → graph_key (plan_advance g i s).graph ≡ graph_key g
unfolding plan_advance
graph_key-plan_advance g i s = graph_key-advance_from g i s (get_node g i)

-- After an advance, the returned graph is the stored one.
get_task_graph-advance_task_graph :
    (workspace_id run_id i : String) (s : SubTaskStatus) (x : MemoryStateStore) (g : TaskGraph)
    → get_task_graph x workspace_id run_id ≡ some g
    → graph_key g ≡ (workspace_id, run_id)
    → lookup (workspace_id, run_id) (advance_task_graph workspace_id run_id i s x).1.task_graphs
      ≡ some (plan_advance g i s).graph
unfolding advance_task_graph save_task_graph
get_task_graph-advance_task_graph workspace_id run_id i s x g found named =
    rw (found, graph_key-plan_advance g i s ∙ named)
      (lookup-insert_self (workspace_id, run_id) (plan_advance g i s).graph x.task_graphs)

module _ (world : Outside) (envelope : EventEnvelope) (run_id node_id status : String) where
  -- Handling a completed or failed node a second time, in the state that the first handling left, adds
  -- no event to the queue: for every graph stored under its own key and every node that it holds,
  -- whatever the outside world answers in either handling.
  pub handle_completed-handle_completed :
      (s : Runtime) (g : TaskGraph) (node : SubTask)
      → (status == "completed" || status == "failed") ≡ true
      → get_task_graph s.store envelope.event.workspace_id run_id ≡ some g
      → graph_key g ≡ (envelope.event.workspace_id, run_id)
      → get_node g node_id ≡ some node
      → let s' = (handle_completed world envelope run_id node_id status s).1 in
        queued (handle_completed world envelope run_id node_id status s').1 ≡ queued s'
  unfolding get_task_graph
  handle_completed-handle_completed s g node ended found named known =
      let s' = (handle_completed world envelope run_id node_id status s).1 in
      let t = terminal_status status in
      let stored =
        ap (lookup (envelope.event.workspace_id, run_id))
          (handle_completed-task_graphs world envelope run_id node_id status s ended)
        ∙ get_task_graph-advance_task_graph envelope.event.workspace_id run_id node_id t s.store g
            found named in
      handle_completed-queued world envelope run_id node_id status s'
        (plan_advance g node_id t).graph ended stored
      ∙ ap (λ a. queued s' ++ tasks_of world envelope run_id node_id a)
          (plan_advance-plan_advance g node_id t node known)
      ∙ append-nil (queued s')
