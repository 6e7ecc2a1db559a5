-- ===== src/Application/RunSync/Statuses.antt =====
-- The run that the requests are for, and the status that they give to it.
use prism_agent.Prelude.{
  String, ◌≡◌, ◌∙◌, refl, true, Option, none, some, is_some, List, [], ◌∷◌, ◌++◌, any, All,
  Bool-cases, inl, inr, if◌then◌else◌, ◌==◌,
}
use prism_agent.Prelude.Fallible.{ok}
use prism_agent.Domain.Actions.{PlannedAction}
use prism_agent.Domain.Events.{text_or}
use prism_agent.Domain.Plans.{AgentPlan, PlanStatus, is_subplan, names_action}
use prism_agent.Domain.AgentRun.{Texts, run_status_to_api}
use prism_agent.Domain.AgentRun.Orders.{action_step_order_lem}
use prism_agent.Application.RunSync.{
  Request, create_agent_run, upsert_agent_run_step, upsert_agent_action, create_agent_action_event,
  update_agent_run_status, api_run_id, upsert_action, event_request, status_request,
  reported_status, action_requests, record_action_state, message_of,
}

-- The run statuses that are sent, in order.
abbrev pub statuses : List Request → List String
statuses [] = []
statuses (update_agent_run_status workspace_id run_id status ∷ requests) =
    status ∷ statuses requests
statuses (_ ∷ requests) = statuses requests

-- The request is not for another run.
abbrev pub IsFor : String → Request → Type 0
IsFor run (create_agent_run workspace_id payload) = payload.run_id ≡ run
IsFor run (upsert_agent_run_step workspace_id run_id payload) = run_id ≡ run
IsFor run (upsert_agent_action workspace_id run_id payload) = run_id ≡ run
IsFor run (create_agent_action_event workspace_id action_id event_type message) = Unit
IsFor run (update_agent_run_status workspace_id run_id status) = run_id ≡ run

-- The status that a plan sends: a sub-plan, and a run that goes on, send none.
abbrev final : PlanStatus → List String
final PlanStatus.completed = "completed" ∷ []
final PlanStatus.failed = "failed" ∷ []
final PlanStatus.cancelled = "cancelled" ∷ []
final PlanStatus.waiting_for_approval = "waiting" ∷ []
final PlanStatus.replan_required = "waiting" ∷ []
final PlanStatus.planned = []
final PlanStatus.running = []

abbrev sent_for : Option String → PlanStatus → List String
sent_for none status = final status
sent_for (some parent) status = []

abbrev pub sent : AgentPlan → List String
sent plan = sent_for plan.parent_run_id plan.status

reported-sent :
    (workspace_id run_id : String) (parent : Option String) (status : PlanStatus)
    → let reported = if is_some parent then "running" else run_status_to_api status in
      statuses (
        if reported == "running"
        then []
        else update_agent_run_status workspace_id run_id reported ∷ [])
      ≡ sent_for parent status
unfolding run_status_to_api
reported-sent workspace_id run_id (some p) status = refl
reported-sent workspace_id run_id none PlanStatus.planned = refl
reported-sent workspace_id run_id none PlanStatus.running = refl
reported-sent workspace_id run_id none PlanStatus.completed = refl
reported-sent workspace_id run_id none PlanStatus.failed = refl
reported-sent workspace_id run_id none PlanStatus.cancelled = refl
reported-sent workspace_id run_id none PlanStatus.waiting_for_approval = refl
reported-sent workspace_id run_id none PlanStatus.replan_required = refl

-- The run of a plan: a sub-plan is a part of its parent run, if that has a name.
abbrev part_of : Option String → String → String
part_of none plan_id = plan_id
part_of (some parent) plan_id = if parent == "" then plan_id else parent

abbrev pub run_of : AgentPlan → String
run_of plan = part_of plan.parent_run_id plan.plan_id

text_or-part_of : (o : Option String) (t : String) → text_or o t ≡ part_of o t
text_or-part_of none t = refl
text_or-part_of (some u) t = refl

api_run_id-run_of : (plan : AgentPlan) → api_run_id plan ≡ run_of plan
unfolding api_run_id
api_run_id-run_of plan = text_or-part_of plan.parent_run_id plan.plan_id

module _ (texts : Texts) (plan : AgentPlan) (action : PlannedAction) (event_name : String) where
  statuses-status_request : statuses (status_request texts plan) ≡ sent plan
  unfolding reported_status is_subplan
  statuses-status_request =
      reported-sent plan.workspace_id (api_run_id plan) plan.parent_run_id plan.status

  statuses-event :
      (message : Option String) (rest : List Request)
      → statuses (event_request texts plan action event_name message ++ rest) ≡ statuses rest
  statuses-event none rest = refl
  statuses-event (some message) rest = refl

  event-IsFor :
      (message : Option String) (rest : List Request)
      → All (IsFor (run_of plan)) rest
      → All (IsFor (run_of plan)) (event_request texts plan action event_name message ++ rest)
  event-IsFor none rest h = h
  event-IsFor (some message) rest h = (tt, h)

  status-IsFor : All (IsFor (run_of plan)) (status_request texts plan)
  status-IsFor = elim (Bool-cases (reported_status texts plan == "running")) [
    | inl goes_on ↦ rw goes_on tt
    | inr ends ↦ rw ends (api_run_id-run_of plan, tt)
  ]

  -- When an action of its plan is reported, every request that names a run names the parent run of
  -- the plan, if it has one with a name, and otherwise the plan itself. The only status that may be sent
  -- is that of the plan, completed, failed, cancelled or waiting: a sub-plan, and a run that goes on,
  -- send none.
  pub record_action_state-statuses :
      (message : Option String)
      → any (names_action action.action_id) plan.actions ≡ true
      → (requests : List Request) × (record_action_state texts plan action event_name message
          ≡ ok requests)
        × All (IsFor (run_of plan)) requests
        × (statuses requests ≡ sent plan)
  unfolding record_action_state action_requests upsert_action
  record_action_state-statuses message known =
      let (n, order, found, same, small, a, here, named) =
        action_step_order_lem plan action known in
      (
        action_requests texts plan action event_name message order,
        rw found refl,
        (
          api_run_id-run_of plan,
          (api_run_id-run_of plan, event-IsFor (message_of message) _ status-IsFor),
        ),
        statuses-event (message_of message) _ ∙ statuses-status_request,
      )
