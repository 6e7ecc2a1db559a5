-- ===== src/Application/RunSync.antt =====
-- src/application/agent_run_sync.py: what the runtime reports of a run to the Prism API. A method is the
-- list of the requests that it makes when it is enabled, in order; the client stops at the first that raises. The time
-- and the constant fields of a payload are left out.
pub mod Statuses
pub mod Limits
use prism_agent.Prelude.{
  ℕ, String, Bool, true, false, ◌&&◌, ◌||◌, Option, none, some, List, [], ◌∷◌, ◌++◌, map, length,
  is_some, if◌then◌else◌, ◌==◌,
}
use prism_agent.Prelude.Fallible.{Fallible, ok, ◌>>=◌}
use prism_agent.Prelude.Clips.{clip}
use prism_agent.Prelude.Decimal.{decimal}
use Prim.Native.String.{◌++◌ as cat}
use prism_agent.Domain.Json.{Json, object, Fields, get}
use prism_agent.Domain.Events.{RuntimeEvent, EventKind, manual, scheduled, agent_action, text_or}
use prism_agent.Domain.Actions.{PlannedAction}
use prism_agent.Domain.Plans.{AgentPlan, is_subplan}
use prism_agent.Domain.Results.{AgentContext}
use prism_agent.Domain.AgentRun.{
  Texts, blank_or, or_else, first_string, pointer_string, uuid_of, stable_agent_run_uuid,
  action_api_id, action_api_type, action_target_id, action_target_type, action_step_title,
  action_step_order, action_status_to_api, step_status_to_api, run_status_to_api,
}

abbrev pub agent_run_step_title_max_length : ℕ
agent_run_step_title_max_length = 255

pub record RunPayload : Type 0 where
  pub objective : String
  pub run_id : String
  pub system_prompt_version : String
  pub trigger_type : String
  pub triggered_by_user_id : Option String
  pub work_item_id : Option String

pub record StepPayload : Type 0 where
  pub step_id : String
  pub step_order : ℕ
  pub step_type : String
  pub status : String
  pub title : String
  pub input_summary : Option String
  pub output_summary : String
  pub error_message : Option String

pub record ActionPayload : Type 0 where
  pub action_id : String
  pub action_type : String
  pub target_type : String
  pub status : String
  pub reasoning_summary : String
  pub requires_approval : Bool
  pub step_id : Option String
  pub target_id : Option String
  pub error_message : Option String

pub data Request : Type 0 where
  create_agent_run : (workspace_id : String) → RunPayload → Request
  upsert_agent_run_step : (workspace_id run_id : String) → StepPayload → Request
  upsert_agent_action : (workspace_id run_id : String) → ActionPayload → Request
  create_agent_action_event : (workspace_id action_id event_type message : String) → Request
  update_agent_run_status : (workspace_id run_id status : String) → Request

-- `message[:5000]`, and no message.
abbrev pub clipped : Option String → Option String
clipped none = none
clipped (some message) = some (clip 5000 message)

-- `_api_run_id`
unfoldable pub api_run_id : AgentPlan → String
api_run_id plan = text_or plan.parent_run_id plan.plan_id

-- `_trigger_type`
unfoldable pub trigger_type : EventKind → String
trigger_type (manual _) = "manual"
trigger_type (scheduled _) = "scheduled"
trigger_type (agent_action _ _) = "recursive"
trigger_type _ = "event"

-- `message`, if it is not empty.
abbrev pub message_of : Option String → Option String
message_of none = none
message_of (some message) = if message == "" then none else some message

module _ (texts : Texts) where
  abbrev user_keys : List String
  user_keys = "triggeredByUserId" ∷ "requestedByUserId" ∷ "userId" ∷ []

  abbrev item_keys : List String
  item_keys = "workItemId" ∷ "work_item_id" ∷ "itemId" ∷ []

  -- A UUID under one of some keys of the payload, or of its `queue_pointer`.
  unfoldable pub payload_uuid : RuntimeEvent → List String → Option String
  payload_uuid event keys =
      or_else (uuid_of texts (first_string texts.strip event.payload keys))
        (uuid_of texts (pointer_string texts.strip (get event.payload "queue_pointer") keys))

  abbrev actor_of : EventKind → Option String
  actor_of (manual actor_id) = actor_id
  actor_of _ = none

  -- `_triggered_by_user_id`
  unfoldable pub triggered_by_user_id : RuntimeEvent → Option String
  triggered_by_user_id event =
      or_else (uuid_of texts (actor_of event.kind)) (payload_uuid event user_keys)

  -- `_work_item_id`
  unfoldable pub work_item_id : RuntimeEvent → Option String
  work_item_id event = payload_uuid event item_keys

  -- `_agent_run_create_payload`
  unfoldable pub agent_run_create_payload :
      (run_id : String) → AgentContext → (objective prompt_version : String) → RunPayload
  agent_run_create_payload run_id context objective prompt_version =
      let event = context.source_event.event in
      record {
        objective = clip 5000 (blank_or (texts.strip objective) context.workflow_id);
        run_id = run_id;
        system_prompt_version = clip 100 prompt_version;
        trigger_type = trigger_type event.kind;
        triggered_by_user_id = triggered_by_user_id event;
        work_item_id = work_item_id event;
      }

  abbrev is_over : String → Bool
  is_over status = status == "failed" || status == "cancelled"

  abbrev pub error_if : Bool → Option String → Option String
  error_if b message = if b then clipped (message_of message) else none

  -- `_upsert_action`
  unfoldable pub upsert_action :
      AgentPlan → PlannedAction → (include_step_id : Bool) → Option String → Request
  upsert_action plan action include_step_id message =
      let target_id = action_target_id texts action in
      let status = action_status_to_api action.status action.requires_approval in
      upsert_agent_action plan.workspace_id (api_run_id plan) (record {
        action_id = action_api_id texts action;
        action_type = action_api_type texts action;
        target_type = action_target_type texts action target_id;
        status = status;
        reasoning_summary = clip 5000 action.instruction;
        requires_approval = action.requires_approval;
        step_id = (if include_step_id then some (action_api_id texts action) else none);
        target_id = message_of target_id;
        error_message = error_if (is_over status) message;
      })

  unfoldable pub record_run_started :
      AgentContext → (run_id objective prompt_version : String) → List Request
  record_run_started context run_id objective prompt_version =
      create_agent_run context.workspace_id
        (agent_run_create_payload run_id context objective prompt_version)
      ∷ []

  unfoldable pub record_plan_created : AgentPlan → List Request
  record_plan_created plan =
      upsert_agent_run_step plan.workspace_id (api_run_id plan) (record {
        step_id = stable_agent_run_uuid texts plan.plan_id "plan";
        step_order = 0;
        step_type = "plan";
        status = "completed";
        title = clip agent_run_step_title_max_length (blank_or (texts.strip plan.goal) "Plan");
        input_summary = none;
        output_summary = cat "Planned " (cat (decimal (length plan.actions)) " action(s).");
        error_message = none;
      })
      ∷ map (λ action. upsert_action plan action false none) plan.actions

  unfoldable pub record_run_failed : (workspace_id run_id message : String) → List Request
  record_run_failed workspace_id run_id message =
      upsert_agent_run_step workspace_id run_id (record {
        step_id = stable_agent_run_uuid texts run_id "plan";
        step_order = 0;
        step_type = "plan";
        status = "failed";
        title = "Plan";
        input_summary = none;
        output_summary = "Planning failed.";
        error_message = some (clip 5000 message);
      })
      ∷ update_agent_run_status workspace_id run_id "failed"
      ∷ []

  unfoldable pub record_run_running : (workspace_id run_id : String) → List Request
  record_run_running workspace_id run_id =
      update_agent_run_status workspace_id run_id "running" ∷ []

  unfoldable pub record_run_completed_by_id : (workspace_id run_id : String) → List Request
  record_run_completed_by_id workspace_id run_id =
      update_agent_run_status workspace_id run_id "completed" ∷ []

  unfoldable pub record_run_completed : AgentPlan → List Request
  record_run_completed plan = record_run_completed_by_id plan.workspace_id (api_run_id plan)

  -- The run status that an action is reported with. A sub-plan never ends the run that it belongs to.
  unfoldable pub reported_status : AgentPlan → String
  reported_status plan = if is_subplan plan then "running" else run_status_to_api plan.status

  abbrev pub event_request : AgentPlan → PlannedAction → String → Option String → List Request
  event_request plan action event_name none = []
  event_request plan action event_name (some message) =
      create_agent_action_event plan.workspace_id (action_api_id texts action) event_name
        (clip 5000 message)
      ∷ []

  abbrev pub status_request : AgentPlan → List Request
  status_request plan =
      if reported_status plan == "running"
      then []
      else update_agent_run_status plan.workspace_id (api_run_id plan) (reported_status plan) ∷ []

  -- The requests of an action whose step has an order.
  unfoldable pub action_requests :
      AgentPlan → PlannedAction → String → Option String → ℕ → List Request
  action_requests plan action event_name message order =
      let status = step_status_to_api action.status in
      upsert_agent_run_step plan.workspace_id (api_run_id plan) (record {
        step_id = action_api_id texts action;
        step_order = order;
        step_type = "execute";
        status = status;
        title = clip agent_run_step_title_max_length (action_step_title texts action);
        input_summary = some (clip 5000 action.instruction);
        output_summary = clip 5000 (text_or message event_name);
        error_message = error_if (status == "failed") message;
      })
        ∷ upsert_action plan action true message
        ∷ event_request plan action event_name (message_of message)
      ++ status_request plan

  unfoldable pub record_action_state :
      AgentPlan → PlannedAction → String → Option String → Fallible (List Request)
  record_action_state plan action event_name message = action_step_order plan action >>= λ order.
      ok (action_requests plan action event_name message order)
