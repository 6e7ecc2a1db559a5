-- ===== src/Application/Coordinator/Dispatches.antt =====
-- What the coordinator puts in the queue when a node is completed.
use prism_agent.Prelude.{
  String, arith, ◌≡◌, ◌∙◌, sym, refl, ap, Bool, true, false, ◌||◌, Option, none, some, List, [],
  ◌∷◌, ◌++◌, map, ◌==◌,
}
use mathlib.Core.List.{append-nil, map-append}
use prism_agent.Domain.Events.{EventEnvelope, EventKind, subagent_task, wrap}
use prism_agent.Domain.Subtasks.{
  SubTask, SubTaskStatus, TaskGraph, TaskGraphAdvance, plan_advance, finish, after_completion,
  advance_from, record_status, get_node, with_node_status,
}
use prism_agent.Domain.Subtasks.Dispatch.{dispatched_by, option_list}
use prism_agent.Domain.Subtasks.Claims.{ids}
use prism_agent.Infrastructure.Queue.{enqueue}
use prism_agent.Infrastructure.StateStore.{get_task_graph, advance_task_graph}
use prism_agent.Application.Effects.{
  Outside, OutsideCall, Runtime, Action, Result, return, raise, continue, Answer, pure, gets,
  modify, store, fresh, wrapped, enqueue_as, report, ◌>>=◌, ◌>>◌,
}
use prism_agent.Application.Effects
use prism_agent.Application.Effects.Keeps.{
  Keeps, Keeps-bind, Keeps-modify, Keeps-outside, keeps_rules,
}
use prism_agent.Application.Effects.Sends.{
  queued, Sends, Sends-pure, Sends-bind, Queued, Puts, Puts-bind, Puts-nothing, Puts-if,
}
use prism_agent.Application.Coordinator.Tasks.{graph_event, trace}
use prism_agent.Application.Coordinator.Joins.{
  terminal_status, store_result, dispatch_node, dispatch_nodes, dispatch_synthesizer_of,
  end_completed, end_blocked, fail_run, go_on, store_if, join_advance, advance_graph,
  handle_completed,
}

module _ (world : Outside) (envelope : EventEnvelope) where
  dispatch_node-Sends :
      (g : TaskGraph) (node : SubTask)
      → Sends (dispatch_node world envelope g node) (subagent_task g.plan_id node.node_id ∷ [])
  unfolding dispatch_node fresh wrapped wrap Effects.enqueue enqueue_as enqueue graph_event trace
      Effects.trace store ◌>>=◌
  dispatch_node-Sends g node = record {
    ends = λ s. refl;
    puts = λ s. map-append (λ m. m.envelope.event.kind) s.queue.messages _;
  }

  abbrev task_kinds : TaskGraph → List SubTask → List EventKind
  task_kinds g nodes = map (subagent_task g.plan_id) (ids nodes)

  dispatch_nodes-Sends :
      (g : TaskGraph) (nodes : List SubTask)
      → Sends (dispatch_nodes world envelope g nodes) (task_kinds g nodes)
  unfolding dispatch_nodes
  dispatch_nodes-Sends g [] = Sends-pure
  dispatch_nodes-Sends g (node ∷ nodes) =
      Sends-bind _ _ _ _ (dispatch_node-Sends g node) (dispatch_nodes-Sends g nodes)

  dispatch_synthesizer_of-Sends :
      (g : TaskGraph) (o : Option SubTask)
      → Sends (dispatch_synthesizer_of world envelope g o) (task_kinds g (option_list o))
  unfolding dispatch_synthesizer_of
  dispatch_synthesizer_of-Sends g none = Sends-pure
  dispatch_synthesizer_of-Sends g (some node) = dispatch_node-Sends g node

module _ (l : List EventKind) (world : Outside) (envelope : EventEnvelope) where
  trace-Queued : (name message : String) → Keeps (Queued l) (trace envelope.event name message)
  unfolding trace Effects.trace store
  trace-Queued name message = Keeps-modify _ (λ s h. h)

  report-Queued : (call : OutsideCall) → Keeps (Queued l) (report world call)
  unfolding report
  report-Queued call = Keeps-outside call _ (λ s h. h)

  end_completed-Queued :
      (i : String) (b : Bool) → Keeps (Queued l) (end_completed world envelope i b)
  unfolding end_completed
  end_completed-Queued i b = search (keeps_rules, report-Queued, trace-Queued) depth 12

  end_blocked-Queued : (i : String) (b : Bool) → Keeps (Queued l) (end_blocked world envelope i b)
  unfolding end_blocked
  end_blocked-Queued i b = search (keeps_rules, report-Queued, trace-Queued) depth 12

  fail_run-Queued : (i j : String) → Keeps (Queued l) (fail_run world envelope i j)
  unfolding fail_run
  fail_run-Queued i j = search (keeps_rules, report-Queued, trace-Queued) depth 12

  ends-Queued :
      (i : String) (b c : Bool)
      → Keeps (Queued l) (end_completed world envelope i b >> end_blocked world envelope i c)
  ends-Queued i b c = Keeps-bind _ _ (end_completed-Queued i b) (λ _. end_blocked-Queued i c)

module _ (world : Outside) (envelope : EventEnvelope) where
  store_result-Sends : (w i j : String) → Sends (store_result world w i j) []
  unfolding store_result store ◌>>=◌
  store_result-Sends w i j = record { ends = λ s. refl; puts = λ s. sym (append-nil (queued s)) }

  store_if-Sends : (b : Bool) (i j : String) → Sends (store_if world envelope b i j) []
  unfolding store_if
  store_if-Sends true i j = store_result-Sends _ i j
  store_if-Sends false i j = Sends-pure

  go_on-Puts :
      (i : String) (a : TaskGraphAdvance)
      → Puts (go_on world envelope i a) (map (subagent_task a.graph.plan_id) (dispatched_by a))
  unfolding go_on
  go_on-Puts i a s =
      Puts-bind _ _ _ _ (dispatch_nodes-Sends world envelope a.graph a.newly_ready)
        (Puts-bind _ _ _ _
          (dispatch_synthesizer_of-Sends world envelope a.graph a.dispatch_synthesizer)
          (Puts-nothing _ (λ l. ends-Queued l world envelope i a.run_completed a.blocked)))
        s
      ∙ ap (λ l. queued s ++ l)
          (ap (λ l. task_kinds world envelope a.graph a.newly_ready ++ l) (append-nil _)
            ∙ sym (
                map-append (subagent_task a.graph.plan_id) (ids a.newly_ready)
                  (ids (option_list a.dispatch_synthesizer))))

-- An outcome that is ignored, or that fails the run, dispatches nothing.
abbrev IsQuiet : TaskGraphAdvance → Type 0
IsQuiet a = (a.already_processed || a.run_failed) ≡ true → dispatched_by a ≡ []

finish-IsQuiet : (g : TaskGraph) (o : Option SubTask) → IsQuiet (finish g o)
unfolding finish
finish-IsQuiet g none = grind arith
finish-IsQuiet g (some node) = grind arith

after_completion-IsQuiet : (g : TaskGraph) → IsQuiet (after_completion g)
unfolding after_completion
after_completion-IsQuiet g = grind (arith, finish-IsQuiet g g.synthesizer_node)

plan_advance-IsQuiet :
    (g : TaskGraph) (i : String) (s : SubTaskStatus) → IsQuiet (plan_advance g i s)
unfolding plan_advance advance_from record_status
plan_advance-IsQuiet g i s = go (get_node g i)
  where
    go : (o : Option SubTask) → IsQuiet (advance_from g i s o)
    go none = λ h. refl
    go (some node) = grind (arith, after_completion-IsQuiet (with_node_status g i s))

module _ (world : Outside) (envelope : EventEnvelope) (run_id node_id : String) where
  -- The task events of an outcome.
  abbrev pub tasks_of : TaskGraphAdvance → List EventKind
  tasks_of a = map (subagent_task a.graph.plan_id) (dispatched_by a)

  no_tasks : (a : TaskGraphAdvance) → dispatched_by a ≡ [] → tasks_of a ≡ []
  no_tasks a h = ap (map (subagent_task a.graph.plan_id)) h

  join_advance-Puts :
      (a : TaskGraphAdvance) (s : SubTaskStatus)
      → IsQuiet a
      → Puts (join_advance world envelope run_id node_id s (some a)) (tasks_of a)
  unfolding join_advance
  join_advance-Puts a s quiet =
      Puts-if a.already_processed _ _
        (λ h.
          rw (no_tasks a (quiet (grind arith)))
            (Puts-nothing _ (λ l. trace-Queued l world envelope _ _)))
        (Puts-bind _ _ [] (tasks_of a) (store_if-Sends world envelope _ run_id node_id) (
          Puts-if a.run_failed _ _
            (λ h.
              rw (no_tasks a (quiet (grind arith)))
                (Puts-nothing _ (λ l. fail_run-Queued l world envelope run_id node_id)))
            (go_on-Puts world envelope run_id a)))

  -- A completed or failed node of a stored graph puts in the queue, after what is there, one task event
  -- for each node that `plan_advance` dispatches, in its order, and no other event. This holds whatever
  -- the outside world answers, also if the handler raises.
  pub handle_completed-queued :
      (status : String) (s : Runtime) (g : TaskGraph)
      → (status == "completed" || status == "failed") ≡ true
      → get_task_graph s.store envelope.event.workspace_id run_id ≡ some g
      → queued (handle_completed world envelope run_id node_id status s).1
        ≡ queued s ++ tasks_of (plan_advance g node_id (terminal_status status))
  unfolding handle_completed advance_graph advance_task_graph store ◌>>=◌
  handle_completed-queued status s g ended found =
      rw (ended, found)
        (join_advance-Puts (plan_advance g node_id (terminal_status status))
          (terminal_status status) (plan_advance-IsQuiet g node_id (terminal_status status)) _)
