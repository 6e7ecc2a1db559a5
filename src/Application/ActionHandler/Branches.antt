-- ===== src/Application/ActionHandler/Branches.antt =====
-- `ActionEventHandler.handle` of src/application/action_event_handler.py, one function for each of
-- its branches, and `Executor.execute_one`. The `data` of a trace entry is left out.
use prism_agent.Prelude.{
  ℕ, zero, suc, ◌+◌, String, Bool, true, false, not, ◌⊎◌, inl, inr, ◌||◌, Option, none, some,
  if◌then◌else◌, ltb,
}
use Prim.Native.String.{◌++◌}
use prism_agent.Domain.Json.{end}
use prism_agent.Domain.Events.{EventEnvelope, EventKind, agent_action, text_or}
use prism_agent.Domain.Actions.{PlannedAction, ActionStatus, has_status, with_status}
use prism_agent.Domain.Plans.{AgentPlan, get_action, is_subplan, replace_action}
use prism_agent.Domain.Results.{
  AgentContext, ContextSnapshot, ToolResult, ValidationResult, ValidationDecision, commit, suggest,
  retry, replan, fail,
}
use prism_agent.Infrastructure.StateStore.{
  update_plan, get_plan, get_context_snapshot, save_action_result, check_idempotency_key,
  record_idempotency_key,
}
use prism_agent.Application.Effects.{
  Outside, Action, Error, type_error, plan_not_found, action_not_found, key_error, validation_error,
  outside_error, runtime_error, value_error, run_already_terminal, run_tool, record_action_state,
  pure, throw, gets, outside, try_except, fresh, enqueue, wrapped, trace, report, store, ◌>>=◌,
  ◌>>◌,
}
use prism_agent.Application.Validator.{
  decision_name, validate_before_execution, validate_after_execution, approval_result,
}
use prism_agent.Application.ActionHandler.Settle.{
  follow_up, replan_event, enqueue_events, settle_subplan, settle_if_subplan, enqueue_next_action,
}

abbrev pub action_execution_attempts : ℕ
action_execution_attempts = 3

-- `str(exc)`
abbrev pub error_text : Error → String
error_text (type_error message) = message
error_text (plan_not_found plan_id) = plan_id
error_text (action_not_found action_id) = action_id
error_text (key_error message) = "'" ++ message ++ "'"
error_text validation_error = "validation error"
error_text (outside_error message) = message
error_text (runtime_error message) = message
error_text (value_error message) = message
error_text (run_already_terminal run_id status) =
    "Agent run " ++ run_id ++ " is already " ++ status ++ "."

unfoldable pub execute_one : Outside → PlannedAction → AgentContext → Action ToolResult
execute_one world action context =
    if world.has_tool action.tool_name
    then outside (run_tool action context) (λ calls. world.tool calls action context)
    else throw (key_error ("Tool not registered: " ++ action.tool_name))

module _ (world : Outside) (envelope : EventEnvelope) (plan : AgentPlan)
    (action : PlannedAction) where
  unfoldable pub note : String → String → Action (Unit {0})
  note event_name message =
      trace envelope.event event_name message (some plan.plan_id) (some action.action_id)

  -- `self.agent_run_sync.record_action_state(...)`
  unfoldable pub sync : AgentPlan → PlannedAction → String → String → Action (Unit {0})
  sync new_plan new_action event_name message =
      report world (record_action_state new_plan new_action event_name message)

  unfoldable pub updated : AgentPlan → ActionStatus → AgentPlan
  updated base status = replace_action base (with_status action status)

  -- The action is not pending any more.
  unfoldable pub skip_action : Action (Option EventEnvelope)
  skip_action = do
    note "action.not_pending" "Skipped action because hydrated state is not pending."
    if has_status ActionStatus.completed action || has_status ActionStatus.skipped action
        then enqueue_next_action world envelope plan
        else pure none

  unfoldable pub suggest_branch : ValidationResult → Action (Unit {0})
  suggest_branch validation = do
    result_id ← fresh world
    let new_action = with_status action ActionStatus.requires_approval
    let new_plan = updated plan ActionStatus.requires_approval
    store (save_action_result (approval_result result_id action validation))
    store (update_plan new_plan)
    sync new_plan new_action "action.approval_required"
        "Action converted to user-facing suggestion."
    store (record_idempotency_key action.idempotency_key)
    enqueue_events world validation.emitted_events
    note "action.approval_required" "Action converted to user-facing suggestion."
    settle_if_subplan world envelope new_plan "waiting_for_approval" none

  unfoldable pub replan_later : AgentContext → AgentPlan → ValidationResult → Action (Unit {0})
  replan_later context new_plan validation = do
    event_id ← fresh world
    wrapper ← wrapped world (
        replan_event context new_plan (with_status action ActionStatus.stale) envelope
          validation.stale_entities (text_or validation.reason "stale_context") event_id)
    enqueue world wrapper
    note "plan.replan_enqueued" ("Enqueued replan for stale action " ++ action.action_id ++ ".")

  unfoldable pub replan_branch : AgentContext → ValidationResult → Action (Unit {0})
  replan_branch context validation = do
    let new_action = with_status action ActionStatus.stale
    let new_plan = updated plan ActionStatus.stale
    store (update_plan new_plan)
    sync new_plan new_action "action.stale_context"
        "Action blocked because expected entity versions are stale."
    note "action.stale_context" "Action blocked because expected entity versions are stale."
    if is_subplan new_plan
        then settle_subplan world envelope new_plan "failed"
            (some (text_or validation.reason "stale_context"))
        else replan_later context new_plan validation

  unfoldable pub fail_branch : ValidationResult → Action (Unit {0})
  fail_branch validation = do
    let new_action = with_status action ActionStatus.failed
    let new_plan = updated plan ActionStatus.failed
    let message = text_or validation.reason "Action validation failed."
    store (update_plan new_plan)
    sync new_plan new_action "action.validation_failed" message
    note "action.validation_failed" message
    settle_if_subplan world envelope new_plan "failed"
        (some (text_or validation.reason "validation_failed"))

  -- The handler of an exception of the tool.
  unfoldable pub tool_raised : AgentPlan → Error → Action (Option EventEnvelope)
  tool_raised running_plan exc = do
    let failed_action = with_status action ActionStatus.failed
    let failed_plan = updated running_plan ActionStatus.failed
    let failure_message = "Tool " ++ action.tool_name ++ " failed: " ++ error_text exc
    store (update_plan failed_plan)
    try_except (sync failed_plan failed_action "action.execution_error" failure_message)
        (λ _. pure tt)
    note "action.execution_error"
        ("Tool " ++ action.tool_name ++ " raised before returning a result.")
    note "action.failed" failure_message
    if is_subplan failed_plan
        then (do
          settle_subplan world envelope failed_plan "failed" (some failure_message)
          pure none)
        else throw exc

  unfoldable pub commit_branch : AgentPlan → ValidationResult → Action (Option EventEnvelope)
  commit_branch running_plan validation = do
    let new_action = with_status action ActionStatus.completed
    let new_plan = updated running_plan ActionStatus.completed
    store (update_plan new_plan)
    sync new_plan new_action "action.completed" ("Completed action " ++ action.action_id)
    store (record_idempotency_key action.idempotency_key)
    enqueue_events world validation.emitted_events
    note "action.completed" ("Completed action " ++ action.action_id)
    enqueue_next_action world envelope new_plan

  unfoldable pub retry_branch : AgentPlan → ValidationResult → Action (Unit {0})
  retry_branch running_plan validation = do
    let retry_action = with_status action ActionStatus.pending
    let retry_plan = updated running_plan ActionStatus.pending
    let message = text_or validation.reason "Action requested retry."
    store (update_plan retry_plan)
    event_id ← fresh world
    wrapper ← wrapped world (
        follow_up envelope plan event_id (agent_action plan.plan_id action.action_id)
          "agent.action.requested" end)
    enqueue world (record wrapper { attempt = envelope.attempt + 1 })
    sync retry_plan retry_action "action.retry_scheduled" message
    note "action.retry_scheduled" message

  unfoldable pub failed_branch : AgentPlan → ValidationResult → Action (Unit {0})
  failed_branch running_plan validation = do
    let new_action = with_status action ActionStatus.failed
    let new_plan = updated running_plan ActionStatus.failed
    let message = text_or validation.reason "Action failed validation after execution."
    store (update_plan new_plan)
    sync new_plan new_action "action.failed" message
    note "action.failed" message
    settle_if_subplan world envelope new_plan "failed"
        (some (text_or validation.reason "post_validation_failed"))

  abbrev pub may_retry : Bool
  may_retry = ltb (envelope.attempt + 1) action_execution_attempts

  -- The branches on `post_validation.decision`.
  unfoldable pub settle_result :
      AgentPlan → ValidationResult → ValidationDecision → Action (Option EventEnvelope)
  settle_result running_plan validation commit = commit_branch running_plan validation
  settle_result running_plan validation retry = do
    if may_retry
        then retry_branch running_plan validation
        else failed_branch running_plan validation
    pure none
  settle_result running_plan validation _ = do failed_branch running_plan validation; pure none

  unfoldable pub after_tool : AgentPlan → ToolResult → Action (Option EventEnvelope)
  after_tool running_plan result = do
    store (save_action_result result)
    let validation = validate_after_execution result
    note "action.post_validation"
        ("Post-execution validation decided " ++ decision_name validation.decision ++ ".")
    settle_result running_plan validation validation.decision

  -- The `try` statement runs the tool alone; what follows the statement is outside of it.
  unfoldable pub tool_outcome : AgentContext → Action (ToolResult ⊎ Error)
  tool_outcome context =
      try_except (do result ← execute_one world action context; pure (inl result))
        (λ exc. pure (inr exc))

  unfoldable pub after_outcome : AgentPlan → ToolResult ⊎ Error → Action (Option EventEnvelope)
  after_outcome running_plan (inl result) = after_tool running_plan result
  after_outcome running_plan (inr exc) = tool_raised running_plan exc

  unfoldable pub run_branch : AgentContext → Action (Option EventEnvelope)
  run_branch context = do
    let running_action = with_status action ActionStatus.running
    let running_plan = updated plan ActionStatus.running
    let message = "Executing tool " ++ action.tool_name ++ " for action " ++ action.action_id ++ "."
    sync running_plan running_action "action.executing" message
    store (update_plan running_plan)
    note "action.executing" message
    outcome ← tool_outcome context
    after_outcome running_plan outcome

  -- The branches on `pre_validation.decision`.
  unfoldable pub act_on :
      AgentContext → ValidationResult → ValidationDecision → Action (Option EventEnvelope)
  act_on context validation suggest = do suggest_branch validation; pure none
  act_on context validation replan = do replan_branch context validation; pure none
  act_on context validation fail = do fail_branch validation; pure none
  act_on context validation _ = run_branch context

  unfoldable pub select_action : AgentContext → Action (Option EventEnvelope)
  select_action context = do
    note "action.selected" ("Selected action " ++ action.action_id ++ " for execution.")
    validation ← validate_before_execution world action context
    note "action.pre_validation"
        ("Pre-execution validation decided " ++ decision_name validation.decision ++ ".")
    act_on context validation validation.decision

  unfoldable pub check_duplicate : AgentContext → Bool → Action (Option EventEnvelope)
  check_duplicate context true = do
    note "action.duplicate" "Skipped duplicate action execution."
    pure none
  check_duplicate context false = select_action context

  unfoldable pub with_snapshot : Option ContextSnapshot → Action (Option EventEnvelope)
  with_snapshot none = throw (plan_not_found ("context:" ++ plan.context_snapshot_ref))
  with_snapshot (some snapshot) = do
    used ← gets (λ s. check_idempotency_key s.store action.idempotency_key)
    check_duplicate snapshot.context used

  unfoldable pub handle_action : Action (Option EventEnvelope)
  handle_action = if not (has_status ActionStatus.pending action) then skip_action else (do
    snapshot ←
        gets
          (λ s. get_context_snapshot s.store envelope.event.workspace_id plan.context_snapshot_ref)
    with_snapshot snapshot)

module _ (world : Outside) (envelope : EventEnvelope) where
  unfoldable pub find_action :
      AgentPlan → String → Option PlannedAction → Action (Option EventEnvelope)
  find_action plan action_id none = throw (action_not_found action_id)
  find_action plan action_id (some action) = handle_action world envelope plan action

  unfoldable pub find_plan : String → String → Option AgentPlan → Action (Option EventEnvelope)
  find_plan plan_id action_id none = throw (plan_not_found plan_id)
  find_plan plan_id action_id (some plan) = find_action plan action_id (get_action plan action_id)

  unfoldable pub dispatch_kind : EventKind → Action (Option EventEnvelope)
  dispatch_kind (agent_action plan_id action_id) = do
    plan ← gets (λ s. get_plan s.store envelope.event.workspace_id plan_id)
    find_plan plan_id action_id plan
  dispatch_kind _ =
      throw (type_error "ActionEventHandler can only process AgentActionEvent envelopes.")

  -- One round of `handle`, up to the recursive call.
  unfoldable pub handle_once : Action (Option EventEnvelope)
  handle_once = dispatch_kind envelope.event.kind

-- How `handle` ends when it does not raise. The fuel is the model's own.
pub data Outcome : Type 0 where
  finished out_of_fuel : Outcome

unfoldable pub follow : (EventEnvelope → Action Outcome) → Option EventEnvelope → Action Outcome
follow again none = pure finished
follow again (some envelope) = again envelope

-- `ActionEventHandler.handle`, with its recursive call.
unfoldable pub handle : ℕ → Outside → EventEnvelope → Action Outcome
handle zero world envelope = pure out_of_fuel
handle (suc fuel) world envelope = handle_once world envelope >>= follow (handle fuel world)
