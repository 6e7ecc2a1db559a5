-- ===== src/Domain/Plans.antt =====
-- src/domain/plans.py: a plan, the choice of its next action, and the status that follows from the
-- statuses of its actions. The times of a plan (`created_at`, `updated_at`) are left out.
pub mod Next
pub mod Replace
pub mod Run
use prism_agent.Prelude.{
  String, Bool, true, false, ◌&&◌, ◌||◌, Option, none, some, List, map, all, any, find?, select,
  is_some, if◌then◌else◌, ◌==◌,
}
use prism_agent.Domain.Actions.{PlannedAction, ActionStatus, has_status, is_unblocked}

pub data PlanStatus : Type 0 where
  planned running completed failed cancelled waiting_for_approval replan_required : PlanStatus

pub record AgentPlan : Type 0 where
  pub plan_id : String
  pub parent_run_id : Option String
  pub node_id : Option String
  pub source_event_id : String
  pub workspace_id : String
  pub project_id : Option String
  pub goal : String
  pub prompt_id : String
  pub prompt_version : String
  pub skill_ids : List String
  pub tool_names : List String
  pub actions : List PlannedAction
  pub status : PlanStatus
  pub context_snapshot_ref : String

unfoldable pub is_subplan : AgentPlan → Bool
is_subplan plan = is_some plan.parent_run_id

abbrev pub names_action : String → PlannedAction → Bool
names_action i action = action.action_id == i

unfoldable pub get_action : AgentPlan → String → Option PlannedAction
get_action plan i = find? (names_action i) plan.actions

unfoldable pub completed_action_ids : AgentPlan → List String
completed_action_ids plan =
    map (λ action. action.action_id) (select (has_status ActionStatus.completed) plan.actions)

-- The plan may still run an action.
abbrev pub is_open : PlanStatus → Bool
is_open planned = true
is_open running = true
is_open _ = false

abbrev pub can_run : List String → PlannedAction → Bool
can_run done action = has_status ActionStatus.pending action && is_unblocked action done

unfoldable pub next_pending_action : AgentPlan → Option PlannedAction
next_pending_action plan =
    if is_open plan.status then find? (can_run (completed_action_ids plan)) plan.actions else none

abbrev pub is_settled : PlannedAction → Bool
is_settled action =
    has_status ActionStatus.completed action || has_status ActionStatus.skipped action

-- The status that `replace_action` gives to a plan.
unfoldable pub status_of : List PlannedAction → PlanStatus
status_of actions =
    if all is_settled actions
    then completed
    else if any (has_status ActionStatus.failed) actions
    then failed
    else if any (has_status ActionStatus.requires_approval) actions
    then waiting_for_approval
    else if any (has_status ActionStatus.stale) actions
    then replan_required
    else running

abbrev pub replace : PlannedAction → PlannedAction → PlannedAction
replace new old = if names_action new.action_id old then new else old

unfoldable pub replace_action : AgentPlan → PlannedAction → AgentPlan
replace_action plan new =
    let actions = map (replace new) plan.actions in
    record plan { actions = actions; status = status_of actions }
