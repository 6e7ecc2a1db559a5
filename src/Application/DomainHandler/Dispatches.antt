-- ===== src/Application/DomainHandler/Dispatches.antt =====
-- What the first event of an orchestrated run puts in the queue.
use prism_agent.Prelude.{
  String, ◌≡◌, ◌∙◌, refl, ap, true, false, none, some, List, [], ◌∷◌, ◌++◌, map, select, is_empty,
  All, ◌==◌, lookup, insert, lookup-insert_self, string_eq, pair_eq,
}
use mathlib.Core.List.{map-append}
use prism_agent.Capabilities.Definitions.{OrchestrationDef}
use prism_agent.Domain.Events.{EventEnvelope, EventKind, subagent_task, wrap}
use prism_agent.Domain.Results.{ContextSnapshot}
use prism_agent.Domain.Subtasks.{SubTask, TaskGraph, ready_nodes, completed_node_ids, claim_ready}
use prism_agent.Domain.Subtasks.Claims.{ids, claim_ready_lem}
use prism_agent.Infrastructure.Queue.{MemoryQueue, enqueue}
use prism_agent.Infrastructure.Registries.{WorkflowDefinition}
use prism_agent.Infrastructure.StateStore.{
  MemoryStateStore, get_task_graph, save_task_graph, claim_ready_nodes, save_context_snapshot,
  append_trace_event,
}
use prism_agent.Application.Effects.{
  Outside, OutsideCall, Runtime, Action, return, pure, throw, gets, outside, try_except,
  of_fallible, store, fresh, wrapped, enqueue_as, trace, report, ◌>>=◌, ◌>>◌,
}
use prism_agent.Application.Effects
use prism_agent.Application.Effects.Keeps.{Keeps, Keeps-bind, Keeps-modify, Keeps-outside}
use prism_agent.Application.Effects.Sends.{
  queued, Sends, Sends-pure, Sends-bind, Queued, Puts, Puts-nothing,
}
use prism_agent.Application.Orchestrator.Nodes.{all_have_skill, is_independent, names}
use prism_agent.Application.Orchestrator.Graphs.{build_orchestrated_graph-ready}
use prism_agent.Application.DomainHandler.Reports.{start_run, report_run}
use prism_agent.Application.DomainHandler.Quiet.{raise_if_run_terminal-Keeps}
use prism_agent.Application.DomainHandler.Graphs.{
  task_event, dispatch_node, dispatch_all, dispatch_ready, claim, run_graph, start_graph,
  handle_new, handle_orchestrated,
}

module _ (world : Outside) (envelope : EventEnvelope) where
  abbrev task_kinds : TaskGraph → List SubTask → List EventKind
  task_kinds g nodes = map (subagent_task g.plan_id) (ids nodes)

  dispatch_node-Sends :
      (g : TaskGraph) (node : SubTask)
      → Sends (dispatch_node world envelope g node) (subagent_task g.plan_id node.node_id ∷ [])
  unfolding dispatch_node fresh wrapped wrap Effects.enqueue enqueue_as enqueue task_event trace
      store ◌>>=◌
  dispatch_node-Sends g node = record {
    ends = λ s. refl;
    puts = λ s. map-append (λ m. m.envelope.event.kind) s.queue.messages _;
  }

  dispatch_all-Sends :
      (g : TaskGraph) (nodes : List SubTask)
      → Sends (dispatch_all world envelope g nodes) (task_kinds g nodes)
  unfolding dispatch_all
  dispatch_all-Sends g [] = Sends-pure
  dispatch_all-Sends g (node ∷ nodes) =
      Sends-bind _ _ _ _ (dispatch_node-Sends g node) (dispatch_all-Sends g nodes)

  empty-Queued :
      (l : List EventKind) (g : TaskGraph) → Keeps (Queued l) (dispatch_ready world envelope g [])
  unfolding dispatch_ready report trace store
  empty-Queued l g = Keeps-bind _ _ (Keeps-outside _ _ (λ s h. h)) (λ _. Keeps-modify _ (λ s h. h))

  dispatch_ready-Puts :
      (g : TaskGraph) (nodes : List SubTask)
      → Puts (dispatch_ready world envelope g nodes) (task_kinds g nodes)
  unfolding dispatch_ready
  dispatch_ready-Puts g [] = Puts-nothing _ (λ l. empty-Queued l g)
  dispatch_ready-Puts g (node ∷ nodes) = (dispatch_all-Sends g (node ∷ nodes)).puts

  abbrev Same : MemoryStateStore → MemoryQueue → Runtime → Type 0
  Same st q s = (s.store ≡ st) × (s.queue ≡ q)

  start_run-Same :
      (st : MemoryStateStore) (q : MemoryQueue) (snapshot : ContextSnapshot) (run_id : String)
      (workflow : WorkflowDefinition)
      → Keeps (Same st q) (start_run world snapshot run_id workflow)
  unfolding start_run report_run
  start_run-Same st q snapshot run_id workflow =
      Keeps-bind _ _ (Keeps-outside _ _ (λ s h. h))
        (λ status. raise_if_run_terminal-Keeps status run_id)

module _ (world : Outside) (envelope : EventEnvelope) (workflow : WorkflowDefinition)
    (snapshot : ContextSnapshot) (run_id : String) where
  abbrev workspace : String
  workspace = snapshot.context.workspace_id

  abbrev pub run_of : TaskGraph → TaskGraph
  run_of built = record built { plan_id = run_id; context_snapshot_ref = some snapshot.snapshot_id }

  pub found-saved :
      (built : TaskGraph) (st : MemoryStateStore)
      → built.workspace_id ≡ workspace
      → lookup (workspace, run_id) (save_task_graph (run_of built) st).task_graphs
        ≡ some (run_of built)
  unfolding save_task_graph
  found-saved built st same =
      ap (λ w. lookup (workspace, run_id) (insert (w, run_id) (run_of built) st.task_graphs)) same
      ∙ lookup-insert_self (workspace, run_id) (run_of built) st.task_graphs

  run_graph-queued :
      (built : TaskGraph) (s : Runtime)
      → built.workspace_id ≡ workspace
      → queued (run_graph world envelope workflow snapshot run_id built s).1
        ≡ queued s
          ++ map (subagent_task run_id) (ids (ready_nodes built (completed_node_ids built)))
  unfolding run_graph claim claim_ready_nodes get_task_graph save_context_snapshot
      append_trace_event store trace ready_nodes completed_node_ids ◌>>=◌
  run_graph-queued built s same = rw (found-saved built _ same) (
      dispatch_ready-Puts world envelope (run_of built) (claim_ready (run_of built)).1 _
      ∙ ap (λ l. queued s ++ map (subagent_task run_id) l) (claim_ready_lem (run_of built)).0)

  -- No graph is stored for the run, and the API has not ended it.
  pub record IsNew (s : Runtime) : Type 0 where
    pub unknown : get_task_graph s.store workspace run_id ≡ none
    pub started : (start_run world snapshot run_id workflow s).0 ≡ return tt

  start_graph-queued :
      (o : OrchestrationDef) (s : Runtime)
      → workflow.orchestration ≡ some o
      → is_empty o.default_graph ≡ false
      → All (λ def. (def.node == "") ≡ false) o.default_graph
      → all_have_skill o ≡ true
      → queued (start_graph world envelope workflow snapshot run_id none s).1
        ≡ queued s ++ map (subagent_task run_id) (names (select is_independent o.default_graph))
  unfolding start_graph fresh of_fallible ◌>>=◌
  start_graph-queued o s e nonempty named skilled =
      let (g, built, placed, ready) =
        build_orchestrated_graph-ready (some world.registries.skills) workflow (world.uuid s.drawn)
          snapshot.context o e nonempty named skilled in
      rw built
        (run_graph-queued g _ placed ∙ ap (λ l. queued s ++ map (subagent_task run_id) l) ready)

  -- When no graph is stored for a run, the API lets it start, and the nodes of its orchestration
  -- are named and declare skills, the handler puts in the queue one task event for each node that
  -- declares no dependency, in the order of the orchestration, and no other event.
  pub handle_orchestrated-queued :
      (o : OrchestrationDef) (s : Runtime)
      → IsNew s
      → workflow.orchestration ≡ some o
      → is_empty o.default_graph ≡ false
      → All (λ def. (def.node == "") ≡ false) o.default_graph
      → all_have_skill o ≡ true
      → queued (handle_orchestrated world envelope workflow snapshot run_id s).1
        ≡ queued s ++ map (subagent_task run_id) (names (select is_independent o.default_graph))
  unfolding handle_orchestrated handle_new try_except ◌>>=◌
  handle_orchestrated-queued o s new e nonempty named skilled =
      let same =
        (start_run-Same world envelope s.store s.queue snapshot run_id workflow).at s
          (refl, refl) in
      rw (new.unknown, new.started)
        (start_graph-queued o _ e nonempty named skilled
          ∙ ap
              (λ (q : MemoryQueue).
                map (λ m. m.envelope.event.kind) q.messages
                ++ map (subagent_task run_id) (names (select is_independent o.default_graph)))
              same.1)
