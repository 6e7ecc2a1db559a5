-- ===== src/Application/Coordinator/Stores.antt =====
-- What the coordinator does to the stored task graphs.
use prism_agent.Prelude.{
  ◌+◌, String, ◌≡◌, ◌∙◌, refl, Bool, true, ◌||◌, Option, none, some, List, [], ◌∷◌, ◌==◌, Dict, Key,
}
use prism_agent.Domain.Events.{EventEnvelope, RuntimeEvent}
use prism_agent.Domain.Actions.{PlannedAction}
use prism_agent.Domain.Plans.{AgentPlan}
use prism_agent.Domain.Results.{AgentContext, ContextSnapshot}
use prism_agent.Domain.Subtasks.{
  SubTask, SubTaskStatus, TaskGraph, TaskGraphAdvance, SubAgentResult,
}
use prism_agent.Infrastructure.StateStore.{
  MemoryStateStore, save_plan, save_sub_agent_result, append_trace_event, advance_task_graph,
}
use prism_agent.Application.Effects.{
  Outside, OutsideCall, Runtime, Action, store, fresh, wrapped, enqueue, enqueue_as, modify,
  outside, report, ◌>>=◌, ◌>>◌,
}
use prism_agent.Application.Effects
use prism_agent.Application.Effects.Keeps.{
  Keeps, Keeps-bind, Keeps-modify, Keeps-outside, keeps_rules,
}
use prism_agent.Infrastructure.Registries.{WorkflowDefinition}
use prism_agent.Application.Planner.{create_plan}
use prism_agent.Application.Coordinator.Tasks.{
  trace, inject_results, enqueue_action, enqueue_completed, resume_settled, resume_with,
  resume_existing_subplan, start_first, node_context, plan_for_node, plan_node, with_sub_plan,
  task_of, task_in, handle_task,
}
use prism_agent.Application.Coordinator.Joins.{
  terminal_status, store_result, dispatch_node, dispatch_nodes, dispatch_synthesizer_of,
  end_completed, end_blocked, fail_run, go_on, store_if, join_advance, advance_graph,
  handle_completed,
}

abbrev Graphs : Dict Key TaskGraph → Runtime → Type 0
Graphs d s = s.store.task_graphs ≡ d

module _ (d : Dict Key TaskGraph) (world : Outside) where
  store-Graphs :
      (f : MemoryStateStore → MemoryStateStore)
      → ((x : MemoryStateStore) → (f x).task_graphs ≡ x.task_graphs)
      → Keeps (Graphs d) (store f)
  unfolding store
  store-Graphs f k = Keeps-modify _ (λ s h. k s.store ∙ h)

  trace-Graphs :
      (e : RuntimeEvent) (name message : String) → Keeps (Graphs d) (trace e name message)
  unfolding trace Effects.trace append_trace_event
  trace-Graphs e name message = store-Graphs _ (λ x. refl)

  save_plan-Graphs : (p : AgentPlan) → Keeps (Graphs d) (store (save_plan p))
  unfolding save_plan
  save_plan-Graphs p = store-Graphs _ (λ x. refl)

  save_result-Graphs :
      (w i : String) (r : SubAgentResult) → Keeps (Graphs d) (store (save_sub_agent_result w i r))
  unfolding save_sub_agent_result
  save_result-Graphs w i r = store-Graphs _ (λ x. refl)

  draw-Graphs : Keeps (Graphs d) (modify (λ s. record s { drawn = s.drawn + 1 }))
  draw-Graphs = Keeps-modify _ (λ s h. h)

  fresh-Graphs : Keeps (Graphs d) (fresh world)
  unfolding fresh
  fresh-Graphs = search (keeps_rules, draw-Graphs)

  enqueue_as-Graphs : (i : String) (e : EventEnvelope) → Keeps (Graphs d) (enqueue_as i e)
  unfolding enqueue_as
  enqueue_as-Graphs i e = Keeps-modify _ (λ s h. h)

  enqueue-Graphs : (e : EventEnvelope) → Keeps (Graphs d) (enqueue world e)
  unfolding enqueue
  enqueue-Graphs e = search (keeps_rules, fresh-Graphs, enqueue_as-Graphs)

  wrapped-Graphs : (e : RuntimeEvent) → Keeps (Graphs d) (wrapped world e)
  unfolding wrapped
  wrapped-Graphs e = search (keeps_rules, fresh-Graphs)

  outside-Graphs :
      {A : Type 0} (call : OutsideCall) (answer : _)
      → Keeps (Graphs d) (outside {A = A} call answer)
  outside-Graphs call answer = Keeps-outside call answer (λ s h. h)

  report-Graphs : (call : OutsideCall) → Keeps (Graphs d) (report world call)
  unfolding report
  report-Graphs call = outside-Graphs call _

  ruleset graphs_rules = (
    keeps_rules, trace-Graphs, save_plan-Graphs, save_result-Graphs, fresh-Graphs, enqueue-Graphs,
    wrapped-Graphs, outside-Graphs, report-Graphs,
  )

  module _ (envelope : EventEnvelope) where
    enqueue_action-Graphs :
        (p : AgentPlan) (a : PlannedAction) → Keeps (Graphs d) (enqueue_action world envelope p a)
    unfolding enqueue_action
    enqueue_action-Graphs p a = search (graphs_rules) depth 20

    enqueue_completed-Graphs :
        (g : TaskGraph) (i t : String) → Keeps (Graphs d) (enqueue_completed world envelope g i t)
    unfolding enqueue_completed
    enqueue_completed-Graphs g i t = search (graphs_rules) depth 20

    resume_settled-Graphs :
        (g : TaskGraph) (n : SubTask) (o : Option (String × String))
        → Keeps (Graphs d) (resume_settled world envelope g n o)
    unfolding resume_settled
    resume_settled-Graphs g n none = search (graphs_rules) depth 20
    resume_settled-Graphs g n (some (w, t)) =
        search (graphs_rules, enqueue_completed-Graphs) depth 20

    resume-Graphs :
        (g : TaskGraph) (n : SubTask) (p : AgentPlan) (o : Option PlannedAction)
        → Keeps (Graphs d) (resume_with world envelope g n p o)
    unfolding resume_with
    resume-Graphs g n p none = resume_settled-Graphs g n _
    resume-Graphs g n p (some a) = search (graphs_rules, enqueue_action-Graphs) depth 20

    start_first-Graphs :
        (g : TaskGraph) (n : SubTask) (p : AgentPlan) (o : Option PlannedAction)
        → Keeps (Graphs d) (start_first world envelope g n p o)
    unfolding start_first
    start_first-Graphs g n p none = search (graphs_rules, enqueue_completed-Graphs) depth 20
    start_first-Graphs g n p (some a) = search (graphs_rules, enqueue_action-Graphs) depth 20

    node_context-Graphs :
        (g : TaskGraph) (n : SubTask) (i : String) (c : AgentContext)
        → Keeps (Graphs d) (node_context world envelope g n i c)
    unfolding node_context inject_results
    node_context-Graphs g n i c = search (graphs_rules) depth 20

    plan_for_node-Graphs :
        (n : SubTask) (c : AgentContext) (r : String) (w : WorkflowDefinition) (i : String)
        → Keeps (Graphs d) (plan_for_node world n c r w i)
    unfolding plan_for_node create_plan
    plan_for_node-Graphs n c r w i = search (graphs_rules) depth 30

    plan_node-Graphs :
        (g : TaskGraph) (n : SubTask) (i : String) (o : Option ContextSnapshot)
        → Keeps (Graphs d) (plan_node world envelope g n i o)
    unfolding plan_node
    plan_node-Graphs g n i none = search (graphs_rules) depth 20
    plan_node-Graphs g n i (some c) =
        search (graphs_rules, node_context-Graphs, plan_for_node-Graphs, start_first-Graphs) depth
          24

    with_sub_plan-Graphs :
        (g : TaskGraph) (n : SubTask) (i : String) (o : Option AgentPlan)
        → Keeps (Graphs d) (with_sub_plan world envelope g n i o)
    unfolding with_sub_plan resume_existing_subplan
    with_sub_plan-Graphs g n i none = search (graphs_rules, plan_node-Graphs) depth 20
    with_sub_plan-Graphs g n i (some p) = resume-Graphs g n p _

    task_of-Graphs :
        (g : TaskGraph) (i j : String) (o : Option SubTask)
        → Keeps (Graphs d) (task_of world envelope g i j o)
    unfolding task_of
    task_of-Graphs g i j none = search (graphs_rules) depth 20
    task_of-Graphs g i j (some n) = search (graphs_rules, with_sub_plan-Graphs) depth 20

    task_in-Graphs :
        (o : Option TaskGraph) (i j : String) → Keeps (Graphs d) (task_in world envelope o i j)
    unfolding task_in
    task_in-Graphs none i j = search (graphs_rules) depth 20
    task_in-Graphs (some g) i j = task_of-Graphs g i j _

    task-Graphs : (i j : String) → Keeps (Graphs d) (handle_task world envelope i j)
    unfolding handle_task
    task-Graphs i j = search (graphs_rules, task_in-Graphs) depth 20

    store_if-Graphs : (b : Bool) (i j : String) → Keeps (Graphs d) (store_if world envelope b i j)
    unfolding store_if store_result
    store_if-Graphs b i j = search (graphs_rules) depth 20

    dispatch_node-Graphs :
        (g : TaskGraph) (n : SubTask) → Keeps (Graphs d) (dispatch_node world envelope g n)
    unfolding dispatch_node
    dispatch_node-Graphs g n = search (graphs_rules) depth 20

    dispatch_nodes-Graphs :
        (g : TaskGraph) (l : List SubTask) → Keeps (Graphs d) (dispatch_nodes world envelope g l)
    unfolding dispatch_nodes
    dispatch_nodes-Graphs g [] = search (keeps_rules)
    dispatch_nodes-Graphs g (n ∷ l) =
        Keeps-bind _ _ (dispatch_node-Graphs g n) (λ _. dispatch_nodes-Graphs g l)

    dispatch_synthesizer-Graphs :
        (g : TaskGraph) (o : Option SubTask)
        → Keeps (Graphs d) (dispatch_synthesizer_of world envelope g o)
    unfolding dispatch_synthesizer_of
    dispatch_synthesizer-Graphs g none = search (keeps_rules)
    dispatch_synthesizer-Graphs g (some n) = dispatch_node-Graphs g n

    ends-Graphs :
        (i : String) (b c : Bool)
        → Keeps (Graphs d) (end_completed world envelope i b >> end_blocked world envelope i c)
    unfolding end_completed end_blocked
    ends-Graphs i b c = search (graphs_rules) depth 20

    fail_run-Graphs : (i j : String) → Keeps (Graphs d) (fail_run world envelope i j)
    unfolding fail_run
    fail_run-Graphs i j = search (graphs_rules) depth 20

    go_on-Graphs : (i : String) (a : TaskGraphAdvance) → Keeps (Graphs d) (go_on world envelope i a)
    unfolding go_on
    go_on-Graphs i a = Keeps-bind _ _ (dispatch_nodes-Graphs a.graph a.newly_ready) (λ _.
        Keeps-bind _ _ (dispatch_synthesizer-Graphs a.graph a.dispatch_synthesizer)
          (λ _. ends-Graphs i a.run_completed a.blocked))

    join-Graphs :
        (i j : String) (s : SubTaskStatus) (o : Option TaskGraphAdvance)
        → Keeps (Graphs d) (join_advance world envelope i j s o)
    unfolding join_advance
    join-Graphs i j s none = search (graphs_rules) depth 20
    join-Graphs i j s (some a) =
        search (graphs_rules, store_if-Graphs, fail_run-Graphs, go_on-Graphs) depth 20

-- Handling a task event leaves every stored task graph as it was, whatever the outside world answers,
-- also if the handler raises.
pub handle_task-task_graphs :
    (world : Outside) (envelope : EventEnvelope) (run_id node_id : String) (s : Runtime)
    → (handle_task world envelope run_id node_id s).1.store.task_graphs ≡ s.store.task_graphs
handle_task-task_graphs world envelope run_id node_id s =
    (task-Graphs s.store.task_graphs world envelope run_id node_id).at s refl

-- Handling a completed or failed node leaves the task graphs as `advance_task_graph` leaves them.
pub handle_completed-task_graphs :
    (world : Outside) (envelope : EventEnvelope) (run_id node_id status : String) (s : Runtime)
    → (status == "completed" || status == "failed") ≡ true
    → (handle_completed world envelope run_id node_id status s).1.store.task_graphs
      ≡ (advance_task_graph envelope.event.workspace_id run_id node_id
          (terminal_status status)
          s.store).1.task_graphs
unfolding handle_completed advance_graph store ◌>>=◌
handle_completed-task_graphs world envelope run_id node_id status s ended =
    rw ended ((join-Graphs _ world envelope run_id node_id (terminal_status status) _).at _ refl)
