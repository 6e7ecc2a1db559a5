-- ===== src/Tests/Domain.antt =====
-- The domain event handler, the context of a run and its reports.
use prism_agent.Prelude.{◌≡◌, refl, ◌&&◌, none, some, [], ◌∷◌, ◌++◌, map, select, elem, lookup}
use prism_agent.Domain.Plans.{next_pending_action}
use prism_agent.Domain.Json.{Fields}
use prism_agent.Domain.Events.{EventEnvelope, domain, subagent_task}
use prism_agent.Infrastructure.StateStore.{get_plan, get_task_graph}
use prism_agent.Application.Effects.{
  Outside, raised, return, raise, outside_error, record_run_failed, outside, pure, of_fallible,
  fresh, store, ◌>>=◌,
}
use prism_agent.Prelude.{insert}
use prism_agent.Prelude.Fallible.{each}
use prism_agent.Infrastructure.Registries.{
  get_workflow_prompt, select_skills, get_skill, allowed_tools_for, collect_tools, add_new,
  select_tools, get_tool, tool_definition,
}
use prism_agent.Application.Orchestrator.{root_node}
use prism_agent.Application.Coordinator.Tasks.{plan_for_node, node_request}
use prism_agent.Application.Planner.{create_plan, tool_approval_policy}
use prism_agent.Application.ActionHandler.{error_text}
use prism_agent.Application.ActionHandler.Guards.{tool_runs}
use prism_agent.Application.Effects.Sends.{queued}
use prism_agent.Application.Orchestrator.Nodes.{names, is_independent}
use prism_agent.Application.ContextProvider.{required_context, resolve_diff_pointer}
use prism_agent.Application.ContextProvider.Scopes.{
  wanted, with_payload, required_context_lem, resolve_diff_pointer-returns,
}
use prism_agent.Application.DomainHandler.{handle}
use prism_agent.Application.DomainHandler.Quiet.{handle-tool_runs}
use prism_agent.Application.DomainHandler.Reports.{start_run, report_run, raise_if_run_terminal}
use prism_agent.Application.DomainHandler.Graphs.{handle_orchestrated}
use prism_agent.Application.DomainHandler.Starts.{handle_linear, plan_root}
use prism_agent.Application.DomainHandler.Dispatches.{IsNew, handle_orchestrated-queued}
use prism_agent.Application.DomainHandler.Duplicates.{handle_orchestrated-handle_orchestrated}
use prism_agent.Application.DomainHandler.Plans.{
  event_of, handle_linear-resumed, handle_linear-failed,
}
use prism_agent.Tests.Planning.{orchestration, orchestrated_workflow, all_skilled}
use prism_agent.Tests.Samples.{plan, snapshot, workflow, world, ready_runtime, event, envelope_of}

abbrev trigger : EventEnvelope
trigger = envelope_of (event domain "epic.created")

handle-tool_runs_example :
    tool_runs (handle world trigger ready_runtime).1.calls ≡ tool_runs ready_runtime.calls
handle-tool_runs_example = handle-tool_runs world trigger ready_runtime

ready_runtime-IsNew : IsNew world trigger orchestrated_workflow snapshot "run" ready_runtime
unfolding get_task_graph lookup start_run report_run raise_if_run_terminal outside pure ◌>>=◌
ready_runtime-IsNew = record { unknown = refl; started = refl }

handle_orchestrated-queued_example :
    queued (handle_orchestrated world trigger orchestrated_workflow snapshot "run" ready_runtime).1
    ≡ queued ready_runtime
      ++ map (subagent_task "run") (names (select is_independent orchestration.default_graph))
handle_orchestrated-queued_example =
    handle_orchestrated-queued world trigger orchestrated_workflow snapshot "run" orchestration
      ready_runtime ready_runtime-IsNew refl refl (refl, (refl, tt)) all_skilled

handle_orchestrated-handle_orchestrated_example :
    let s' =
      (handle_orchestrated world trigger orchestrated_workflow snapshot "run" ready_runtime).1 in
    queued (handle_orchestrated world trigger orchestrated_workflow snapshot "run" s').1 ≡ queued s'
handle_orchestrated-handle_orchestrated_example =
    handle_orchestrated-handle_orchestrated world trigger orchestrated_workflow snapshot "run"
      orchestration ready_runtime ready_runtime-IsNew refl refl (refl, (refl, tt)) all_skilled

stored_plan : get_plan ready_runtime.store "w" "p" ≡ some plan
unfolding get_plan lookup
stored_plan = refl

handle_linear-resumed_example :
    queued (handle_linear world trigger workflow snapshot "p" ready_runtime).1
    ≡ queued ready_runtime ++ event_of plan (next_pending_action plan)
handle_linear-resumed_example =
    handle_linear-resumed world trigger workflow snapshot "p" ready_runtime plan stored_plan refl

abbrev failing_world : Outside
failing_world = record world { generate = λ calls task. raised "down" }

no_plan : get_plan ready_runtime.store "w" "run" ≡ none
unfolding get_plan lookup
no_plan = refl

started : (start_run failing_world snapshot "run" workflow ready_runtime).0 ≡ return tt
unfolding start_run report_run raise_if_run_terminal outside pure ◌>>=◌
started = refl

failed :
    (plan_root failing_world trigger workflow snapshot "run"
      (start_run failing_world snapshot "run" workflow ready_runtime).1).0
    ≡ raise (outside_error "down")
unfolding plan_root plan_for_node node_request root_node create_plan get_workflow_prompt
    select_skills get_skill allowed_tools_for collect_tools add_new select_tools get_tool
    tool_definition tool_approval_policy each insert lookup fresh store outside pure of_fallible
    ◌>>=◌
failed = refl

handle_linear-failed_example :
    let (result, s') = handle_linear failing_world trigger workflow snapshot "run" ready_runtime in
    let s'' =
      (plan_root failing_world trigger workflow snapshot "run"
        (start_run failing_world snapshot "run" workflow ready_runtime).1).1 in
    (result ≡ raise (outside_error "down"))
    × (s'.calls ≡ s''.calls ++ record_run_failed "w" "run" (error_text (outside_error "down")) ∷ [])
    × (s'.queue ≡ ready_runtime.queue)
    × (s'.store.plans ≡ ready_runtime.store.plans)
handle_linear-failed_example =
    handle_linear-failed failing_world trigger workflow snapshot "run" ready_runtime
      (outside_error "down") no_plan started failed (λ calls call. refl)

required_context_lem_example :
    elem "sprint" (required_context orchestrated_workflow ("sprint" ∷ []))
    ≡ (elem "sprint" ("sprint" ∷ []) && wanted "sprint" orchestrated_workflow.orchestration)
required_context_lem_example = required_context_lem orchestrated_workflow ("sprint" ∷ []) "sprint"

resolve_diff_pointer-returns_example :
    (payload : Fields) × ((resolve_diff_pointer world trigger.event
        ("pull_request_diff" ∷ [])
        ready_runtime).0
      ≡ return (with_payload trigger.event payload))
resolve_diff_pointer-returns_example =
    resolve_diff_pointer-returns world trigger.event ("pull_request_diff" ∷ []) ready_runtime
