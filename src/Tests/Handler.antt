-- ===== src/Tests/Handler.antt =====
-- The action handler on a plan of two actions.
use prism_agent.Prelude.{suc, ◌+◌, ◌-◌, ◌≤◌, ◌≡◌, ◌≢◌, refl, [], ◌∷◌, length, arith}
use prism_agent.Prelude.{map, lookup, insert}
use prism_agent.Domain.Events.{child, wrap}
use prism_agent.Domain.Actions.{is_unblocked, with_status}
use prism_agent.Domain.Plans.{
  get_action, next_pending_action, replace_action, status_of, completed_action_ids, is_subplan,
}
use prism_agent.Domain.Policies.{diff, diff_from, note_stale, version_eq}
use prism_agent.Infrastructure.StateStore.{
  get_plan, get_context_snapshot, save_plan, save_action_result, check_idempotency_key,
  record_idempotency_key, append_trace_event,
}
use prism_agent.Application.Effects.{return, fresh, wrapped, trace, report, store, ◌>>=◌}
use prism_agent.Application.Validator.{
  validate_before_execution, is_permitted, current_versions, judge, validate_after_execution,
}
use prism_agent.Application.ActionHandler.{
  handle_once, handle, out_of_fuel, inline_action_chain_budget, follow, dispatch_kind, find_plan,
  find_action, handle_action, with_snapshot, check_duplicate, select_action, act_on, run_branch,
  tool_outcome, after_outcome, after_tool, settle_result, commit_branch, updated, note, sync,
  execute_one, enqueue_next_action, choose_next, chain_next, enqueue_events, no_next, finish_plan,
  follow_up,
}
use prism_agent.Application.ActionHandler.Guards.{tool_runs, RanCleared, handle_once-RanCleared}
use prism_agent.Application.ActionHandler.Chain.{handle-ne-out_of_fuel, handle-runs_made}
use prism_agent.Tests.Samples.{world, request, ready_runtime}

handler_program : Unit {0}
unfolding handle handle_once follow dispatch_kind find_plan find_action handle_action with_snapshot
    check_duplicate select_action act_on run_branch tool_outcome after_outcome after_tool
    settle_result commit_branch updated note sync execute_one enqueue_next_action choose_next
    chain_next enqueue_events no_next finish_plan follow_up validate_before_execution is_permitted
    current_versions judge validate_after_execution lookup insert get_plan get_context_snapshot
    save_plan save_action_result check_idempotency_key record_idempotency_key append_trace_event
    diff diff_from note_stale version_eq get_action next_pending_action replace_action status_of
    completed_action_ids is_subplan is_unblocked with_status child wrap fresh wrapped trace report
    store ◌>>=◌
handler_program = tt

handle_once-RanCleared_example :
    RanCleared ready_runtime request (handle_once world request ready_runtime).1
handle_once-RanCleared_example = handle_once-RanCleared world request ready_runtime

handle-ne-out_of_fuel_example : (handle 9 world request ready_runtime).0 ≢ return out_of_fuel
handle-ne-out_of_fuel_example = handle-ne-out_of_fuel 9 world request ready_runtime (omega arith)

handle-runs_made_example :
    length (tool_runs (handle 9 world request ready_runtime).1.calls)
    ≤ length (tool_runs ready_runtime.calls)
      + suc (inline_action_chain_budget - ready_runtime.inline_actions_used)
handle-runs_made_example = handle-runs_made 9 world request ready_runtime

-- Both actions of the plan run in one invocation, in the order of their dependencies.
handled_request :
    map (λ a. a.action_id) (tool_runs (handle 9 world request ready_runtime).1.calls)
    ≡ "a" ∷ "b" ∷ []
unfolding handler_program
handled_request = refl
