-- ===== src/Application/ActionHandler/Settle.antt =====
-- `_settle_subplan`, `_enqueue_next_action`, `_enqueue_events` and `_replan_event` of
-- src/application/action_event_handler.py.
use prism_agent.Prelude.{
  ℕ, ◌+◌, String, Bool, true, false, not, ◌&&◌, Option, none, some, List, [], ◌∷◌, if◌then◌else◌,
  ltb, ◌==◌, Dict,
}
use Prim.Native.String.{◌++◌}
use prism_agent.Domain.Json.{Json, text, integer, object, Fields, end, field, set, remove}
use prism_agent.Domain.Events.{
  RuntimeEvent, EventEnvelope, EventKind, domain, scheduled, manual, agent_action,
  subagent_completed, child, option_or,
}
use prism_agent.Domain.Actions.{PlannedAction, Version, tag, revision}
use prism_agent.Domain.Plans.{
  AgentPlan, PlanStatus, planned, running, completed, failed, cancelled, waiting_for_approval,
  replan_required, is_subplan, next_pending_action,
}
use prism_agent.Domain.Results.{AgentContext}
use prism_agent.Application.Effects.{
  Outside, Action, validation_error, record_run_completed, pure, throw, gets, modify, fresh,
  enqueue, wrapped, trace, report, ◌>>=◌, ◌>>◌,
}

abbrev pub inline_action_chain_budget : ℕ
inline_action_chain_budget = 8

-- `plan.status.value`
abbrev pub plan_status_name : PlanStatus → String
plan_status_name planned = "planned"
plan_status_name running = "running"
plan_status_name completed = "completed"
plan_status_name failed = "failed"
plan_status_name cancelled = "cancelled"
plan_status_name waiting_for_approval = "waiting_for_approval"
plan_status_name replan_required = "replan_required"

-- `{"message": message} if message else {}`
abbrev pub message_payload : Option String → Fields
message_payload none = end
message_payload (some message) = if message == "" then end else field "message" (text message) end

-- An event that continues the one of an envelope, for the workspace of a plan.
unfoldable pub follow_up :
    EventEnvelope → AgentPlan → String → EventKind → String → Fields → RuntimeEvent
follow_up envelope plan event_id kind event_type payload = record {
  kind = kind;
  event_id = event_id;
  event_type = event_type;
  workspace_id = plan.workspace_id;
  project_id = plan.project_id;
  payload = payload;
  correlation_id = envelope.event.correlation_id;
  causality = child envelope.event.causality envelope.event.event_id;
  idempotency_key = none;
}

unfoldable pub version_json : Version → Json
version_json (tag t) = text t
version_json (revision n) = integer n

unfoldable pub stale_json : Dict String (Version × Version) → Fields
stale_json [] = end
stale_json ((k, (expected, current)) ∷ rest) =
    field k
      (object
        (field "expected" (version_json expected) (field "current" (version_json current) end)))
      (stale_json rest)

abbrev pub replan_kind : EventKind → EventKind
replan_kind (manual actor_id) = manual actor_id
replan_kind (scheduled schedule_id) = scheduled schedule_id
replan_kind _ = domain

-- `_replan_event`
unfoldable pub replan_event :
    AgentContext
    → AgentPlan
    → PlannedAction
    → EventEnvelope
    → Dict String (Version × Version)
    → String
    → String
    → RuntimeEvent
replan_event context plan action envelope stale reason event_id =
    let source = context.source_event.event in
    record {
      kind = replan_kind source.kind;
      event_id = event_id;
      event_type = source.event_type;
      workspace_id = source.workspace_id;
      project_id = source.project_id;
      payload =
          set (set (remove source.payload "entity_versions") "agentRunId" (text plan.plan_id))
            "_agent_replan"
            (object (
              field "reason" (text reason) (
                field "blockedActionId" (text action.action_id)
                  (field "staleEntities" (object (stale_json stale)) end))));
      correlation_id = option_or source.correlation_id envelope.event.correlation_id;
      causality = child envelope.event.causality envelope.event.event_id;
      idempotency_key = some (action.idempotency_key ++ ":replan");
    }

module _ (world : Outside) where
  unfoldable pub enqueue_events : List EventEnvelope → Action (Unit {0})
  enqueue_events [] = pure tt
  enqueue_events (envelope ∷ rest) = do enqueue world envelope; enqueue_events rest

  -- The part of `_settle_subplan` with the fields that the completed event requires.
  unfoldable pub settle_node :
      EventEnvelope
      → AgentPlan
      → String
      → String
      → Option String
      → String
      → Option String
      → Action (Unit {0})
  settle_node envelope plan status parent_run_id none event_id message = throw validation_error
  settle_node envelope plan status parent_run_id (some node_id) event_id message = do
    wrapper ← wrapped world (
        follow_up envelope plan event_id (subagent_completed parent_run_id node_id status)
          "agent.subagent.completed" (message_payload message))
    enqueue world wrapper
    trace envelope.event "subagent.settled"
        ("Subagent node " ++ node_id ++ " settled as " ++ status ++ ".") (some parent_run_id) none

  unfoldable pub settle_run :
      EventEnvelope → AgentPlan → String → Option String → Option String → Action (Unit {0})
  settle_run envelope plan status none message = throw validation_error
  settle_run envelope plan status (some parent_run_id) message = do
    event_id ← fresh world
    settle_node envelope plan status parent_run_id plan.node_id event_id message

  unfoldable pub settle_subplan :
      EventEnvelope → AgentPlan → String → Option String → Action (Unit {0})
  settle_subplan envelope plan status message =
      settle_run envelope plan status plan.parent_run_id message

  -- `if updated_plan.is_subplan: self._settle_subplan(...)`
  unfoldable pub settle_if_subplan :
      EventEnvelope → AgentPlan → String → Option String → Action (Unit {0})
  settle_if_subplan envelope plan status message =
      if is_subplan plan then settle_subplan envelope plan status message else pure tt

  abbrev node_text : Option String → String
  node_text none = "None"
  node_text (some node_id) = node_id

  unfoldable pub finish_plan : EventEnvelope → AgentPlan → Action (Unit {0})
  finish_plan envelope plan =
      if is_subplan plan
      then (do
        trace envelope.event "plan.completed"
            ("Sub-plan " ++ plan.plan_id ++ " completed for node " ++ node_text plan.node_id ++ ".")
            (some plan.plan_id) none
        settle_subplan envelope plan "completed" none)
      else (do
        report world (record_run_completed plan)
        trace envelope.event "plan.completed"
            ("Plan " ++ plan.plan_id ++ " has no remaining pending actions.") (some plan.plan_id)
            none)

  abbrev is_completed : PlanStatus → Bool
  is_completed completed = true
  is_completed _ = false

  unfoldable pub no_next : EventEnvelope → AgentPlan → Action (Unit {0})
  no_next envelope plan =
      if is_completed plan.status
      then finish_plan envelope plan
      else trace envelope.event "plan.no_pending_actions"
          ("Plan "
            ++ plan.plan_id
            ++ " has no executable actions in status "
            ++ plan_status_name plan.status
            ++ ".")
          (some plan.plan_id) none

  -- Goes on in the same invocation: the envelope of the recursive call.
  unfoldable pub chain_next :
      AgentPlan → PlannedAction → RuntimeEvent → Action (Option EventEnvelope)
  chain_next plan next_action event = do
    modify (λ s. record s { inline_actions_used = s.inline_actions_used + 1 })
    trace event "action.chained"
        ("Continuing action " ++ next_action.action_id ++ " in the same invocation.")
        (some plan.plan_id) (some next_action.action_id)
    wrapper ← wrapped world event
    pure (some wrapper)

  unfoldable pub enqueue_later :
      AgentPlan → PlannedAction → RuntimeEvent → Action (Option EventEnvelope)
  enqueue_later plan next_action event = do
    wrapper ← wrapped world event
    enqueue world wrapper
    trace event "action.enqueued" ("Enqueued next action " ++ next_action.action_id)
        (some plan.plan_id) (some next_action.action_id)
    pure none

  unfoldable pub choose_next :
      EventEnvelope → AgentPlan → Option PlannedAction → Action (Option EventEnvelope)
  choose_next envelope plan none = do no_next envelope plan; pure none
  choose_next envelope plan (some next_action) = do
    event_id ← fresh world
    let event =
        follow_up envelope plan event_id (agent_action plan.plan_id next_action.action_id)
          "agent.action.requested" end
    used ← gets (λ s. s.inline_actions_used)
    if not next_action.requires_approval && ltb used inline_action_chain_budget
        then chain_next plan next_action event
        else enqueue_later plan next_action event

  -- `_enqueue_next_action`
  unfoldable pub enqueue_next_action : EventEnvelope → AgentPlan → Action (Option EventEnvelope)
  enqueue_next_action envelope plan = choose_next envelope plan (next_pending_action plan)
