-- ===== src/Application/DomainHandler/Duplicates.antt =====
-- An orchestrated run whose first event is delivered twice.
use prism_agent.Prelude.{
  String, ◌≡◌, ◌∙◌, refl, ap, true, false, none, some, is_some, List, [], ◌∷◌, All, is_empty, ◌==◌,
  Key, lookup, insert, lookup-insert_self, string_eq, pair_eq,
}
use prism_agent.Capabilities.Definitions.{OrchestrationDef}
use prism_agent.Domain.Events.{EventEnvelope, wrap}
use prism_agent.Domain.Results.{ContextSnapshot}
use prism_agent.Domain.Subtasks.{SubTask, TaskGraph, claim_ready, ready_nodes, completed_node_ids}
use prism_agent.Infrastructure.Registries.{WorkflowDefinition}
use prism_agent.Infrastructure.StateStore.{
  MemoryStateStore, get_task_graph, save_task_graph, claim_ready_nodes, save_context_snapshot,
  append_trace_event,
}
use prism_agent.Application.Effects.{
  Outside, Runtime, return, of_fallible, try_except, store, fresh, wrapped, enqueue_as, trace,
  report, ◌>>=◌, ◌>>◌,
}
use prism_agent.Application.Effects
use prism_agent.Application.Effects.Keeps.{
  Keeps, Keeps-pure, Keeps-bind, Keeps-modify, Keeps-outside,
}
use prism_agent.Application.Effects.Sends.{queued}
use prism_agent.Application.Coordinator.Redelivery.{graph_key, graph_key-start_all}
use prism_agent.Application.Orchestrator.Nodes.{all_have_skill}
use prism_agent.Application.Orchestrator.Graphs.{build_orchestrated_graph-ready}
use prism_agent.Application.DomainHandler.Dispatches.{IsNew, run_of, found-saved}
use prism_agent.Application.DomainHandler.Graphs.{
  dispatch_node, dispatch_all, dispatch_ready, claim, run_graph, start_graph, handle_new,
  handle_orchestrated,
}

-- A graph is stored under the key.
abbrev IsKnown : Key → Runtime → Type 0
IsKnown key s = is_some (lookup key s.store.task_graphs) ≡ true

module _ (key : Key) (world : Outside) (envelope : EventEnvelope) where
  dispatch_node-IsKnown :
      (g : TaskGraph) (node : SubTask) → Keeps (IsKnown key) (dispatch_node world envelope g node)
  unfolding dispatch_node fresh wrapped wrap Effects.enqueue enqueue_as trace store
      append_trace_event ◌>>=◌
  dispatch_node-IsKnown g node = record { at = λ s h. h }

  dispatch_all-IsKnown :
      (g : TaskGraph) (nodes : List SubTask)
      → Keeps (IsKnown key) (dispatch_all world envelope g nodes)
  unfolding dispatch_all
  dispatch_all-IsKnown g [] = Keeps-pure tt
  dispatch_all-IsKnown g (node ∷ nodes) =
      Keeps-bind _ _ (dispatch_node-IsKnown g node) (λ _. dispatch_all-IsKnown g nodes)

  dispatch_ready-IsKnown :
      (g : TaskGraph) (nodes : List SubTask)
      → Keeps (IsKnown key) (dispatch_ready world envelope g nodes)
  unfolding dispatch_ready report trace store append_trace_event
  dispatch_ready-IsKnown g [] =
      Keeps-bind _ _ (Keeps-outside _ _ (λ s h. h)) (λ _. Keeps-modify _ (λ s h. h))
  dispatch_ready-IsKnown g (node ∷ nodes) = dispatch_all-IsKnown g (node ∷ nodes)

claim_ready-key : (g : TaskGraph) → graph_key (claim_ready g).0 ≡ graph_key g
unfolding claim_ready
claim_ready-key g = graph_key-start_all g (ready_nodes g (completed_node_ids g))

saved-IsKnown :
    (g : TaskGraph) (key : Key) (st : MemoryStateStore)
    → graph_key g ≡ key
    → is_some (lookup key (save_task_graph g st).task_graphs) ≡ true
unfolding save_task_graph
saved-IsKnown g key st e =
    ap (λ k. is_some (lookup key (insert k g st.task_graphs))) e
    ∙ ap is_some (lookup-insert_self key g st.task_graphs)

module _ (world : Outside) (envelope : EventEnvelope) (workflow : WorkflowDefinition)
    (snapshot : ContextSnapshot) (run_id : String) where
  abbrev run_key : Key
  run_key = (snapshot.context.workspace_id, run_id)

  run_graph-IsKnown :
      (built : TaskGraph) (s : Runtime)
      → built.workspace_id ≡ snapshot.context.workspace_id
      → IsKnown run_key (run_graph world envelope workflow snapshot run_id built s).1
  unfolding run_graph claim claim_ready_nodes get_task_graph save_context_snapshot
      append_trace_event store trace ◌>>=◌
  run_graph-IsKnown built s same =
      let g = run_of world envelope workflow snapshot run_id built in
      rw (found-saved world envelope workflow snapshot run_id built _ same) (
        (dispatch_ready-IsKnown run_key world envelope g (claim_ready g).1).at _ (
          saved-IsKnown (claim_ready g).0 run_key _
            (claim_ready-key g ∙ ap (λ w. (w, run_id)) same)))

  start_graph-IsKnown :
      (o : OrchestrationDef) (s : Runtime)
      → workflow.orchestration ≡ some o
      → is_empty o.default_graph ≡ false
      → All (λ def. (def.node == "") ≡ false) o.default_graph
      → all_have_skill o ≡ true
      → IsKnown run_key (start_graph world envelope workflow snapshot run_id none s).1
  unfolding start_graph fresh of_fallible ◌>>=◌
  start_graph-IsKnown o s e nonempty named skilled =
      let (g, built, placed, ready) =
        build_orchestrated_graph-ready (some world.registries.skills) workflow (world.uuid s.drawn)
          snapshot.context o e nonempty named skilled in
      rw built (run_graph-IsKnown g _ placed)

  first-IsKnown :
      (o : OrchestrationDef) (s : Runtime)
      → IsNew world envelope workflow snapshot run_id s
      → workflow.orchestration ≡ some o
      → is_empty o.default_graph ≡ false
      → All (λ def. (def.node == "") ≡ false) o.default_graph
      → all_have_skill o ≡ true
      → IsKnown run_key (handle_orchestrated world envelope workflow snapshot run_id s).1
  unfolding handle_orchestrated handle_new try_except ◌>>=◌
  first-IsKnown o s new e nonempty named skilled =
      rw (new.unknown, new.started) (start_graph-IsKnown o _ e nonempty named skilled)

  -- Once a graph is stored for a run, a further event that starts the run puts nothing in the queue.
  known-quiet :
      (s : Runtime)
      → IsKnown run_key s
      → queued (handle_orchestrated world envelope workflow snapshot run_id s).1 ≡ queued s
  unfolding handle_orchestrated get_task_graph trace store ◌>>=◌
  known-quiet s known = rw known refl

  -- When no graph is stored for a run, the API lets it start, and the nodes of its orchestration
  -- are named and declare skills, the same event, handled again in the state that the first
  -- handling left, adds no event to the queue.
  pub handle_orchestrated-handle_orchestrated :
      (o : OrchestrationDef) (s : Runtime)
      → IsNew world envelope workflow snapshot run_id s
      → workflow.orchestration ≡ some o
      → is_empty o.default_graph ≡ false
      → All (λ def. (def.node == "") ≡ false) o.default_graph
      → all_have_skill o ≡ true
      → let s' = (handle_orchestrated world envelope workflow snapshot run_id s).1 in
        queued (handle_orchestrated world envelope workflow snapshot run_id s').1 ≡ queued s'
  handle_orchestrated-handle_orchestrated o s new e nonempty named skilled =
      known-quiet _ (first-IsKnown o s new e nonempty named skilled)
