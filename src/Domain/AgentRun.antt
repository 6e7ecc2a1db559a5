-- ===== src/Domain/AgentRun.antt =====
-- src/domain/agent_run.py: the identity of a run, and the words of the Prism API for what happens to
-- it. The operations of Python on texts are what the definitions are given (`Texts`).
pub mod Orders
use prism_agent.Prelude.{
  ℕ, zero, suc, ◌+◌, String, Bool, true, false, ◌||◌, Option, none, some, is_some, List, [], ◌∷◌,
  if◌then◌else◌, ◌==◌,
}
use prism_agent.Prelude.Fallible.{Fallible, ok, invalid}
use prism_agent.Prelude.Clips.{clip}
use Prim.Native.String.{◌++◌}
use prism_agent.Domain.Json.{Json, text, object, Fields, get}
use prism_agent.Domain.Events.{RuntimeEvent, text_or}
use prism_agent.Domain.Actions.{PlannedAction, ActionStatus}
use prism_agent.Domain.Plans.{AgentPlan, PlanStatus}

abbrev pub agent_run_id_keys : List String
agent_run_id_keys = "agentRunId" ∷ "runId" ∷ "agent_run_id" ∷ []

-- The first text that is found.
abbrev pub or_else : Option String → Option String → Option String
or_else (some t) o = some t
or_else none o = o

abbrev pub string_or : Option String → String → String
string_or (some t) u = t
string_or none u = u

module _ (strip : String → String) where
  -- `value.strip()`, if the value is a text that is not blank.
  abbrev pub stripped : Option Json → Option String
  stripped (some (text t)) = if strip t == "" then none else some (strip t)
  stripped _ = none

  -- `_first_string`
  unfoldable pub first_string : Fields → List String → Option String
  first_string data_fields [] = none
  first_string data_fields (key ∷ keys) =
      or_else (stripped (get data_fields key)) (first_string data_fields keys)

  abbrev pub pointer_string : Option Json → List String → Option String
  pointer_string (some (object pointer)) keys = first_string pointer keys
  pointer_string _ keys = none

  -- `resolve_agent_run_id`, from the source event of a context.
  unfoldable pub resolve_agent_run_id : RuntimeEvent → String
  resolve_agent_run_id event = string_or (first_string event.payload agent_run_id_keys) (
      string_or (pointer_string (get event.payload "queue_pointer") agent_run_id_keys)
        (text_or event.correlation_id (text_or event.idempotency_key event.event_id)))

unfoldable pub action_status_to_api : ActionStatus → Bool → String
action_status_to_api ActionStatus.completed requires_approval = "executed"
action_status_to_api ActionStatus.failed requires_approval = "failed"
action_status_to_api ActionStatus.skipped requires_approval = "cancelled"
action_status_to_api ActionStatus.stale requires_approval = "cancelled"
action_status_to_api ActionStatus.running requires_approval = "approved"
action_status_to_api ActionStatus.requires_approval requires_approval = "proposed"
action_status_to_api ActionStatus.pending requires_approval =
    if requires_approval then "proposed" else "approved"

unfoldable pub step_status_to_api : ActionStatus → String
step_status_to_api ActionStatus.completed = "completed"
step_status_to_api ActionStatus.failed = "failed"
step_status_to_api ActionStatus.stale = "failed"
step_status_to_api ActionStatus.skipped = "skipped"
step_status_to_api ActionStatus.running = "running"
step_status_to_api _ = "pending"

unfoldable pub run_status_to_api : PlanStatus → String
run_status_to_api PlanStatus.completed = "completed"
run_status_to_api PlanStatus.failed = "failed"
run_status_to_api PlanStatus.cancelled = "cancelled"
run_status_to_api PlanStatus.waiting_for_approval = "waiting"
run_status_to_api PlanStatus.replan_required = "waiting"
run_status_to_api _ = "running"

unfoldable pub step_order_from : ℕ → List PlannedAction → String → Option ℕ
step_order_from index [] action_id = none
step_order_from index (candidate ∷ actions) action_id =
    if candidate.action_id == action_id
    then some index
    else step_order_from (index + 1) actions action_id

abbrev order_or : AgentPlan → PlannedAction → Option ℕ → Fallible ℕ
order_or plan action (some index) = ok index
order_or plan action none =
    invalid ("Action " ++ action.action_id ++ " is not part of plan " ++ plan.plan_id ++ ".")

unfoldable pub action_step_order : AgentPlan → PlannedAction → Fallible ℕ
action_step_order plan action =
    order_or plan action (step_order_from 1 plan.actions action.action_id)

-- What the code uses of Python: `str.strip`, `" ".join(s.split())`, `s.split(":", 1)` of a text
-- that has a colon, `str(UUID(s))` of a text that is a UUID, and `str(uuid5(namespace, s))`.
pub record Texts : Type 0 where
  pub strip : String → String
  pub squeeze : String → String
  pub split_colon : String → Option (String × String)
  pub uuid_string : String → Option String
  pub uuid5 : String → String

abbrev pub blank_or : String → String → String
blank_or a b = if a == "" then b else a

module _ (texts : Texts) where
  unfoldable pub action_step_title : PlannedAction → String
  action_step_title action =
      texts.squeeze (blank_or (texts.strip action.instruction) action.tool_name)

  -- `stable_agent_run_uuid`, for two parts.
  unfoldable pub stable_agent_run_uuid : String → String → String
  stable_agent_run_uuid a b =
      let raw = a ++ ":" ++ b in string_or (texts.uuid_string raw) (texts.uuid5 raw)

  unfoldable pub action_api_id : PlannedAction → String
  action_api_id action = stable_agent_run_uuid action.plan_id action.action_id

  unfoldable pub action_api_type : PlannedAction → String
  action_api_type action =
      clip 50 (blank_or action.tool_name (blank_or action.action_type "agent_action"))

  -- `_uuid_string`
  abbrev pub uuid_of : Option String → Option String
  uuid_of none = none
  uuid_of (some value) = texts.uuid_string value

  abbrev pub first_of : PlannedAction → List String → Option String
  first_of action keys = first_string texts.strip action.input keys

  abbrev split_ref : Option String → Option (String × String)
  split_ref none = none
  split_ref (some target_ref) = texts.split_colon target_ref

  abbrev ref_id : Option (String × String) → Option String
  ref_id none = none
  ref_id (some (kind, entity_id)) = texts.uuid_string entity_id

  abbrev pub entity_ref : PlannedAction → Option (String × String)
  entity_ref action = split_ref (first_of action ("target_entity_ref" ∷ "targetEntityRef" ∷ []))

  unfoldable pub action_target_id : PlannedAction → Option String
  action_target_id action =
      let by_ref = ref_id (entity_ref action) in
      elim (first_of action
        ("targetId" ∷ "target_id" ∷ "itemId" ∷ "workItemId" ∷ "sprintId" ∷ [])) [
          | some value ↦ texts.uuid_string value
          | none ↦ by_ref
        ]

  abbrev pub has_uuid : PlannedAction → String → Bool
  has_uuid action key = is_some (uuid_of (first_of action (key ∷ [])))

  -- The loop over `_TARGET_TYPES_BY_ID_FIELD`.
  abbrev pub type_by_field : PlannedAction → String
  type_by_field action =
      if has_uuid action "itemId" || has_uuid action "workItemId"
      then "work_item"
      else if has_uuid action "sprintId"
      then "sprint"
      else "tool"

  abbrev pub type_by_ref : PlannedAction → Option (String × String) → String
  type_by_ref action none = type_by_field action
  type_by_ref action (some (kind, entity_id)) =
      if is_some (texts.uuid_string entity_id) then clip 50 kind else type_by_field action

  abbrev pub explicit_type : PlannedAction → Option String → String
  explicit_type action (some explicit) = clip 50 explicit
  explicit_type action none = type_by_ref action (entity_ref action)

  unfoldable pub action_target_type : PlannedAction → Option String → String
  action_target_type action none = "tool"
  action_target_type action (some target_id) =
      explicit_type action (first_of action ("targetType" ∷ "target_type" ∷ []))
