-- ===== src/Application/DomainHandler/Plans.antt =====
-- The run of a workflow that has no graph: what is put in the queue, and what a failure of the planner
-- leaves behind.
use prism_agent.Prelude.{
  String, ◌≡◌, refl, false, Option, none, some, List, [], ◌∷◌, ◌++◌, Dict, Key,
}
use mathlib.Core.List.{map-append}
use prism_agent.Domain.Events.{EventEnvelope, EventKind, agent_action, wrap}
use prism_agent.Domain.Actions.{PlannedAction}
use prism_agent.Domain.Plans.{AgentPlan, next_pending_action}
use prism_agent.Domain.Results.{ContextSnapshot}
use prism_agent.Domain.Subtasks.{TaskGraph}
use prism_agent.Infrastructure.Queue.{MemoryQueue, enqueue}
use prism_agent.Infrastructure.Registries.{WorkflowDefinition}
use prism_agent.Infrastructure.StateStore.{
  get_plan, save_plan, save_task_graph, save_context_snapshot,
}
use prism_agent.Application.Effects.{
  Outside, OutsideCall, record_run_failed, Runtime, Error, Action, Answer, answered, return, raise,
  pure, throw, outside, gets, try_except, store, fresh, wrapped, enqueue_as, trace, report, ◌>>=◌,
  ◌>>◌,
}
use prism_agent.Application.Effects
use prism_agent.Application.Effects.Keeps.{
  Keeps, Keeps-bind, Keeps-modify, Keeps-outside, keeps_rules,
}
use prism_agent.Application.Effects.Sends.{queued, Queued, Puts, Puts-nothing}
use prism_agent.Application.ActionHandler.{error_text}
use prism_agent.Application.Planner.{PlanRequest, create_plan}
use prism_agent.Application.Planner.Plans.{create_plan-Keeps}
use prism_agent.Application.Coordinator.Tasks.{plan_for_node}
use prism_agent.Application.DomainHandler.Reports.{start_run, report_run, report_failure}
use prism_agent.Application.DomainHandler.Quiet.{raise_if_run_terminal-Keeps}
use prism_agent.Application.DomainHandler.Starts.{
  should_replan, enqueue_first, fail_empty, first_step, continue_plan, save_snapshot, resume_plan,
  plan_root, plan_run, announce, plan_new, with_existing, handle_linear,
}

-- The event of the next action of a plan, if there is one.
abbrev pub event_of : AgentPlan → Option PlannedAction → List EventKind
event_of plan none = []
event_of plan (some action) = agent_action plan.plan_id action.action_id ∷ []

module _ (world : Outside) (envelope : EventEnvelope) where
  trace-Queued :
      (l : List EventKind) (name message : String) (plan action : Option String)
      → Keeps (Queued l) (trace envelope.event name message plan action)
  unfolding trace store
  trace-Queued l name message plan action = Keeps-modify _ (λ s h. h)

  report-Queued : (l : List EventKind) (call : OutsideCall) → Keeps (Queued l) (report world call)
  unfolding report
  report-Queued l call = Keeps-outside call _ (λ s h. h)

  update-Queued :
      (l : List EventKind) (plan : AgentPlan) → Keeps (Queued l) (store (save_plan plan))
  unfolding store
  update-Queued l plan = Keeps-modify _ (λ s h. h)

  fail_empty-Queued :
      (l : List EventKind) (plan : AgentPlan) → Keeps (Queued l) (fail_empty world envelope plan)
  unfolding fail_empty
  fail_empty-Queued l plan =
      search (keeps_rules, trace-Queued, report-Queued, update-Queued) depth 12

  stay-Queued :
      (l : List EventKind) (plan : AgentPlan)
      → Keeps (Queued l) (first_step world envelope plan none)
  unfolding first_step
  stay-Queued l plan = search (keeps_rules, trace-Queued, fail_empty-Queued)

  first_step-Puts :
      (plan : AgentPlan) (o : Option PlannedAction)
      → Puts (first_step world envelope plan o) (event_of plan o)
  unfolding first_step enqueue_first fresh wrapped wrap Effects.enqueue enqueue_as enqueue trace
      store ◌>>=◌
  first_step-Puts plan (some action) =
      λ s. map-append (λ m. m.envelope.event.kind) s.queue.messages _
  first_step-Puts plan none =
      Puts-nothing (first_step world envelope plan none) (λ l. stay-Queued l plan)

  continue_plan-Puts :
      (plan : AgentPlan)
      → Puts (continue_plan world envelope plan) (event_of plan (next_pending_action plan))
  unfolding continue_plan
  continue_plan-Puts plan = first_step-Puts plan (next_pending_action plan)

  -- An event for a run that has a plan, and that asks for no new one, puts in the queue the event of the
  -- next action of the stored plan, if there is one, and no other event.
  pub handle_linear-resumed :
      (workflow : WorkflowDefinition) (snapshot : ContextSnapshot) (run_id : String) (s : Runtime)
      (plan : AgentPlan)
      → get_plan s.store snapshot.context.workspace_id run_id ≡ some plan
      → should_replan envelope (some plan) ≡ false
      → queued (handle_linear world envelope workflow snapshot run_id s).1
        ≡ queued s ++ event_of plan (next_pending_action plan)
  unfolding handle_linear with_existing resume_plan save_snapshot save_context_snapshot trace store
      ◌>>=◌
  handle_linear-resumed workflow snapshot run_id s plan found kept =
      rw (found, kept) (continue_plan-Puts plan _)

  -- The queue and the plans.
  abbrev Same : MemoryQueue → Dict Key AgentPlan → Runtime → Type 0
  Same q plans s = (s.queue ≡ q) × (s.store.plans ≡ plans)

  module _ (workflow : WorkflowDefinition) (snapshot : ContextSnapshot) (run_id : String)
      (q : MemoryQueue) (plans : Dict Key AgentPlan) where
    start_run-Same : Keeps (Same q plans) (start_run world snapshot run_id workflow)
    unfolding start_run report_run
    start_run-Same =
        Keeps-bind _ _ (Keeps-outside _ _ (λ s h. h))
          (λ status. raise_if_run_terminal-Keeps status run_id)

    fresh-Same : Keeps (Same q plans) (fresh world)
    unfolding fresh ◌>>=◌
    fresh-Same = record { at = λ s h. h }

    save_graph-Same : (g : TaskGraph) → Keeps (Same q plans) (store (save_task_graph g))
    unfolding store save_task_graph
    save_graph-Same g = Keeps-modify _ (λ s h. h)

    create_plan-Same : (request : PlanRequest) → Keeps (Same q plans) (create_plan world request)
    create_plan-Same = create_plan-Keeps world (λ s task h. h)

    plan_root-Same : Keeps (Same q plans) (plan_root world envelope workflow snapshot run_id)
    unfolding plan_root plan_for_node
    plan_root-Same = search (keeps_rules, fresh-Same, save_graph-Same, create_plan-Same) depth 20

  -- A failure of the planner: when no plan is stored for a run, the API lets it start and accepts
  -- reports, and the planning raises, the handler raises the same error, it has reported the
  -- failure of the run with the text of the error as its last call, it has put nothing in the
  -- queue, and it has saved no plan.
  pub handle_linear-failed :
      (workflow : WorkflowDefinition) (snapshot : ContextSnapshot) (run_id : String) (s : Runtime)
      (e : Error)
      → get_plan s.store snapshot.context.workspace_id run_id ≡ none
      → (start_run world snapshot run_id workflow s).0 ≡ return tt
      → (plan_root world envelope workflow snapshot run_id
          (start_run world snapshot run_id workflow s).1).0
        ≡ raise e
      → ((calls : List OutsideCall) (call : OutsideCall) → world.report calls call ≡ answered tt)
      → let (result, s') = handle_linear world envelope workflow snapshot run_id s in
        let s'' =
          (plan_root world envelope workflow snapshot run_id
            (start_run world snapshot run_id workflow s).1).1 in
        (result ≡ raise e)
        × (s'.calls
            ≡ s''.calls
              ++ record_run_failed snapshot.context.workspace_id run_id (error_text e) ∷ [])
        × (s'.queue ≡ s.queue)
        × (s'.store.plans ≡ s.store.plans)
  unfolding handle_linear with_existing plan_new plan_run announce report_failure report try_except
      outside throw ◌>>=◌
  handle_linear-failed workflow snapshot run_id s e new started failed accepted =
      let started_same =
        (start_run-Same workflow snapshot run_id s.queue s.store.plans).at s (refl, refl) in
      let same =
        (plan_root-Same workflow snapshot run_id s.queue s.store.plans).at
          (start_run world snapshot run_id workflow s).1 started_same in
      rw (new, started, failed, accepted _ _) (refl, refl, same.0, same.1)
