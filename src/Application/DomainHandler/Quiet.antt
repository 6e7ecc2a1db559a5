-- ===== src/Application/DomainHandler/Quiet.antt =====
-- What a domain event never does.
use prism_agent.Prelude.{String, ◌≡◌, Bool, true, false, refl, Option, none, some, List, [], ◌∷◌}
use prism_agent.Domain.Json.{Json, text, array}
use prism_agent.Domain.Events.{RuntimeEvent, EventEnvelope}
use prism_agent.Domain.Actions.{PlannedAction}
use prism_agent.Domain.Plans.{AgentPlan}
use prism_agent.Domain.Results.{ContextSnapshot}
use prism_agent.Domain.Subtasks.{SubTask, TaskGraph}
use prism_agent.Infrastructure.Registries.{WorkflowDefinition}
use prism_agent.Application.Effects.{Outside, Runtime, Action, Error, run_already_terminal}
use prism_agent.Application.Effects.Keeps.{
  Keeps, Keeps-bind, Keeps-if, Keeps-throw, Keeps-pure, Keeps-try_except, Keeps-gets, keeps_rules,
}
use prism_agent.Application.Effects.Plumbing.{
  Plumbing, Keeps-trace, Keeps-fresh, Keeps-call, Keeps-report,
}
use prism_agent.Application.ActionHandler.Guards.{tool_runs, Ran-Plumbing}
use prism_agent.Application.ActionHandler.Quiet.{plumbing_rules}
use prism_agent.Application.Router.{RouteResult, route}
use prism_agent.Domain.Plans.{next_pending_action}
use prism_agent.Application.Planner.{PlanRequest, create_plan}
use prism_agent.Application.Coordinator.Tasks.{plan_for_node}
use prism_agent.Application.ContextProvider.{
  fetch_diff, fetch_and_inject, follow_pointer, resolve_diff_pointer, dict_list, hydrate,
}
use prism_agent.Application.DomainHandler.Reports.{
  raise_if_run_terminal, report_run, start_run, resume_run, report_failure, trace_terminal_run_skip,
  terminal_status, terminal_only,
}
use prism_agent.Application.DomainHandler.Graphs.{
  dispatch_node, dispatch_all, dispatch_ready, claim, run_graph, start_graph, handle_new,
  handle_orchestrated,
}
use prism_agent.Application.DomainHandler.Starts.{
  enqueue_first, fail_empty, first_step, continue_plan, save_snapshot, resume_plan, plan_root,
  plan_run, announce, plan_new, with_existing, handle_linear,
}
use prism_agent.Application.DomainHandler.{start, ignore, handle_routed, handle}

terminal_only-Keeps : {P : Runtime → Type 0} (e : Error) → Keeps P (terminal_only e)
terminal_only-Keeps (run_already_terminal run_id status) = Keeps-pure _
terminal_only-Keeps _ = Keeps-throw _

pub raise_if_run_terminal-Keeps :
    {P : Runtime → Type 0} (status : Option Json) (run_id : String)
    → Keeps P (raise_if_run_terminal status run_id)
unfolding raise_if_run_terminal
raise_if_run_terminal-Keeps none run_id = Keeps-pure tt
raise_if_run_terminal-Keeps (some (text t)) run_id = search keeps_rules
raise_if_run_terminal-Keeps (some _) run_id = Keeps-pure tt

module _ {P : Runtime → Type 0} (p : Plumbing P) (world : Outside) where
  create_plan-Keeps : (request : PlanRequest) → Keeps P (create_plan world request)
  unfolding create_plan
  create_plan-Keeps request = search (keeps_rules, Keeps-call) depth 30

  fetch_diff-Keeps : (event : RuntimeEvent) (name : Json) → Keeps P (fetch_diff world event name)
  unfolding fetch_diff
  fetch_diff-Keeps event name = search (keeps_rules, Keeps-call) depth 12

  fetch_and_inject-Keeps :
      (event : RuntimeEvent) (name : Json) → Keeps P (fetch_and_inject world event name)
  unfolding fetch_and_inject
  fetch_and_inject-Keeps event name =
      Keeps-bind _ _ (Keeps-try_except _ _ (fetch_diff-Keeps event name) (λ e. Keeps-pure none))
        (λ blob. Keeps-pure _)

  follow_pointer-Keeps :
      (event : RuntimeEvent) (pointer : Option Json) → Keeps P (follow_pointer world event pointer)
  unfolding follow_pointer
  follow_pointer-Keeps event none = Keeps-pure event
  follow_pointer-Keeps event (some name) =
      Keeps-if _ _ _ (Keeps-pure event) (fetch_and_inject-Keeps event name)

  resolve_diff_pointer-Keeps :
      (event : RuntimeEvent) (required : List String)
      → Keeps P (resolve_diff_pointer world event required)
  unfolding resolve_diff_pointer
  resolve_diff_pointer-Keeps event required = search (keeps_rules, follow_pointer-Keeps)

  dict_list-Keeps : (v : Option Json) → Keeps P (dict_list world v)
  dict_list-Keeps none = Keeps-pure _
  dict_list-Keeps (some (array items)) = search keeps_rules
  dict_list-Keeps (some _) = Keeps-throw _

  hydrate-Keeps :
      (envelope : EventEnvelope) (workflow : WorkflowDefinition)
      → Keeps P (hydrate world envelope workflow)
  unfolding hydrate
  hydrate-Keeps envelope workflow =
      search (keeps_rules, resolve_diff_pointer-Keeps, Keeps-call, dict_list-Keeps, Keeps-fresh)
        depth 30

  start_run-Keeps :
      (snapshot : ContextSnapshot) (run_id : String) (workflow : WorkflowDefinition)
      → Keeps P (start_run world snapshot run_id workflow)
  unfolding start_run report_run
  start_run-Keeps snapshot run_id workflow =
      search (keeps_rules, Keeps-call, raise_if_run_terminal-Keeps)

  resume_run-Keeps :
      (snapshot : ContextSnapshot) (run_id : String) → Keeps P (resume_run world snapshot run_id)
  unfolding resume_run report_run
  resume_run-Keeps snapshot run_id = search (keeps_rules, Keeps-call, raise_if_run_terminal-Keeps)

  terminal_status-Keeps : (m : Action (Unit {0})) → Keeps P m → Keeps P (terminal_status world m)
  terminal_status-Keeps m k =
      Keeps-try_except _ _ (Keeps-bind _ _ k (λ _. Keeps-pure none)) terminal_only-Keeps

  report_failure-Keeps :
      {A : Type 0} (workspace_id run_id : String) (e : Error)
      → Keeps P (report_failure world {A = A} workspace_id run_id e)
  unfolding report_failure
  report_failure-Keeps workspace_id run_id e = search (keeps_rules, Keeps-report)

  module _ (envelope : EventEnvelope) where
    skip-Keeps : (run_id status : String) → Keeps P (trace_terminal_run_skip envelope run_id status)
    unfolding trace_terminal_run_skip
    skip-Keeps run_id status = Keeps-trace p _ _ _ _ _

    dispatch_node-Keeps :
        (graph : TaskGraph) (node : SubTask) → Keeps P (dispatch_node world envelope graph node)
    unfolding dispatch_node
    dispatch_node-Keeps graph node = search plumbing_rules depth 12

    dispatch_all-Keeps :
        (graph : TaskGraph) (nodes : List SubTask)
        → Keeps P (dispatch_all world envelope graph nodes)
    unfolding dispatch_all
    dispatch_all-Keeps graph [] = Keeps-pure tt
    dispatch_all-Keeps graph (node ∷ nodes) =
        Keeps-bind _ _ (dispatch_node-Keeps graph node) (λ _. dispatch_all-Keeps graph nodes)

    dispatch_ready-Keeps :
        (graph : TaskGraph) (nodes : List SubTask)
        → Keeps P (dispatch_ready world envelope graph nodes)
    unfolding dispatch_ready
    dispatch_ready-Keeps graph [] = search (plumbing_rules, Keeps-report)
    dispatch_ready-Keeps graph (node ∷ nodes) = dispatch_all-Keeps graph (node ∷ nodes)

    run_graph-Keeps :
        (workflow : WorkflowDefinition) (snapshot : ContextSnapshot) (run_id : String)
        (graph : TaskGraph)
        → Keeps P (run_graph world envelope workflow snapshot run_id graph)
    unfolding run_graph claim
    run_graph-Keeps workflow snapshot run_id graph =
        search (plumbing_rules, dispatch_ready-Keeps) depth 20

    start_graph-Keeps :
        (workflow : WorkflowDefinition) (snapshot : ContextSnapshot) (run_id : String)
        (status : Option String)
        → Keeps P (start_graph world envelope workflow snapshot run_id status)
    unfolding start_graph
    start_graph-Keeps workflow snapshot run_id none =
        search (plumbing_rules, run_graph-Keeps) depth 12
    start_graph-Keeps workflow snapshot run_id (some status) = skip-Keeps run_id status

    handle_orchestrated-Keeps :
        (workflow : WorkflowDefinition) (snapshot : ContextSnapshot) (run_id : String)
        → Keeps P (handle_orchestrated world envelope workflow snapshot run_id)
    unfolding handle_orchestrated handle_new
    handle_orchestrated-Keeps workflow snapshot run_id =
        search (plumbing_rules, terminal_status-Keeps, start_run-Keeps, start_graph-Keeps) depth 12

    first_step-Keeps :
        (plan : AgentPlan) (o : Option PlannedAction) → Keeps P (first_step world envelope plan o)
    unfolding first_step enqueue_first fail_empty
    first_step-Keeps plan none = search (plumbing_rules, Keeps-report) depth 20
    first_step-Keeps plan (some action) = search plumbing_rules depth 12

    continue_plan-Keeps : (plan : AgentPlan) → Keeps P (continue_plan world envelope plan)
    unfolding continue_plan
    continue_plan-Keeps plan = first_step-Keeps plan (next_pending_action plan)

    module _ (workflow : WorkflowDefinition) (snapshot : ContextSnapshot) (run_id : String) where
      plan_root-Keeps : Keeps P (plan_root world envelope workflow snapshot run_id)
      unfolding plan_root plan_for_node
      plan_root-Keeps = search (plumbing_rules, create_plan-Keeps) depth 12

      plan_run-Keeps :
          (replanned : Bool) (status : Option String)
          → Keeps P (plan_run world envelope workflow snapshot run_id replanned status)
      unfolding plan_run save_snapshot
      plan_run-Keeps replanned none =
          Keeps-bind _ _ (Keeps-try_except _ _ plan_root-Keeps (report_failure-Keeps _ _))
            (λ plan. search (plumbing_rules, Keeps-report, continue_plan-Keeps) depth 20)
      plan_run-Keeps replanned (some status) = skip-Keeps run_id status

      announce-Keeps :
          (replanned : Bool) → Keeps P (announce world envelope workflow snapshot run_id replanned)
      unfolding announce
      announce-Keeps true = search (plumbing_rules, resume_run-Keeps)
      announce-Keeps false = start_run-Keeps snapshot run_id workflow

      plan_new-Keeps :
          (replanned : Bool) → Keeps P (plan_new world envelope workflow snapshot run_id replanned)
      unfolding plan_new
      plan_new-Keeps replanned =
          Keeps-bind _ _ (terminal_status-Keeps _ (announce-Keeps replanned))
            (plan_run-Keeps replanned)

      with_existing-Keeps :
          (existing : Option AgentPlan)
          → Keeps P (with_existing world envelope workflow snapshot run_id existing)
      unfolding with_existing resume_plan save_snapshot
      with_existing-Keeps none = plan_new-Keeps false
      with_existing-Keeps (some plan) =
          search (plumbing_rules, plan_new-Keeps, continue_plan-Keeps) depth 12

      handle_linear-Keeps : Keeps P (handle_linear world envelope workflow snapshot run_id)
      unfolding handle_linear
      handle_linear-Keeps = Keeps-bind _ _ (Keeps-gets _) with_existing-Keeps

    start-Keeps : (workflow : WorkflowDefinition) → Keeps P (start world envelope workflow)
    unfolding start
    start-Keeps workflow =
        Keeps-bind _ _ (hydrate-Keeps envelope workflow)
          (λ snapshot. search (keeps_rules, handle_orchestrated-Keeps, handle_linear-Keeps))

    handle_routed-Keeps :
        (result : RouteResult) (o : Option WorkflowDefinition)
        → Keeps P (handle_routed world envelope result o)
    unfolding handle_routed ignore
    handle_routed-Keeps result none = Keeps-trace p _ _ _ _ _
    handle_routed-Keeps result (some workflow) = search (plumbing_rules, start-Keeps)

    handle-Keeps : Keeps P (handle world envelope)
    unfolding handle
    handle-Keeps = handle_routed-Keeps _ (route world.registries.workflows envelope).workflow

-- A domain event runs no tool: whatever it starts, resumes or ignores, the tools that were run are
-- those that were run before, also if the handler raises.
pub handle-tool_runs :
    (world : Outside) (envelope : EventEnvelope) (s : Runtime)
    → tool_runs (handle world envelope s).1.calls ≡ tool_runs s.calls
handle-tool_runs world envelope s =
    (handle-Keeps (Ran-Plumbing (tool_runs s.calls)) world envelope).at s refl
