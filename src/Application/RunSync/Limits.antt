-- ===== src/Application/RunSync/Limits.antt =====
-- The lengths of the texts that are sent.
use prism_agent.Prelude.{
  ℕ, ◌≤◌, String, Bool, true, false, Option, none, some, List, [], ◌∷◌, ◌++◌, map, All, arith,
  Bool-cases, is_some, inl, inr, if◌then◌else◌, ◌==◌, ◌||◌,
}
use prism_agent.Prelude.Clips.{count-clip}
use Prim.Native.String.{count}
use prism_agent.Domain.Actions.{PlannedAction}
use prism_agent.Domain.Plans.{AgentPlan}
use prism_agent.Domain.Results.{AgentContext}
use prism_agent.Domain.AgentRun.{
  Texts, action_api_type, action_target_type, has_uuid, type_by_field, type_by_ref, explicit_type,
  entity_ref,
}
use prism_agent.Application.RunSync.{
  Request, create_agent_run, upsert_agent_run_step, upsert_agent_action, create_agent_action_event,
  update_agent_run_status, clipped, message_of, error_if, upsert_action, event_request,
  status_request, reported_status, agent_run_create_payload, record_run_started,
  record_plan_created, record_run_failed, action_requests,
}

-- At most so many characters.
abbrev pub IsWithin : ℕ → String → Type 0
IsWithin n t = count t ≤ n

abbrev pub IsWithin? : ℕ → Option String → Type 0
IsWithin? n none = Unit
IsWithin? n (some t) = IsWithin n t

-- The texts of a request are within what the API takes.
abbrev pub IsBounded : Request → Type 0
IsBounded (create_agent_run workspace_id payload) =
    IsWithin 5000 payload.objective × IsWithin 100 payload.system_prompt_version
IsBounded (upsert_agent_run_step workspace_id run_id payload) =
    IsWithin 255 payload.title
    × IsWithin? 5000 payload.input_summary
    × IsWithin? 5000 payload.error_message
IsBounded (upsert_agent_action workspace_id run_id payload) =
    IsWithin 50 payload.action_type
    × IsWithin 50 payload.target_type
    × IsWithin 5000 payload.reasoning_summary
    × IsWithin? 5000 payload.error_message
IsBounded (create_agent_action_event workspace_id action_id event_type message) =
    IsWithin 5000 message
IsBounded (update_agent_run_status workspace_id run_id status) = Unit

IsWithin-clipped : (message : Option String) → IsWithin? 5000 (clipped message)
IsWithin-clipped none = tt
IsWithin-clipped (some message) = count-clip 5000 message

IsWithin-if :
    {n : ℕ} (b : Bool) (s t : String)
    → IsWithin n s
    → IsWithin n t
    → IsWithin n (if b then s else t)
IsWithin-if true s t hs ht = hs
IsWithin-if false s t hs ht = ht

module _ (texts : Texts) where
  IsWithin-error : (b : Bool) (message : Option String) → IsWithin? 5000 (error_if texts b message)
  IsWithin-error true message = IsWithin-clipped (message_of message)
  IsWithin-error false message = tt

  IsWithin-type_by_field : (action : PlannedAction) → IsWithin 50 (type_by_field texts action)
  IsWithin-type_by_field action =
      IsWithin-if (has_uuid texts action "itemId" || has_uuid texts action "workItemId") "work_item"
        (if has_uuid texts action "sprintId" then "sprint" else "tool") (omega arith)
        (IsWithin-if (has_uuid texts action "sprintId") "sprint" "tool" (omega arith) (omega arith))

  IsWithin-type_by_ref :
      (action : PlannedAction) (ref : Option (String × String))
      → IsWithin 50 (type_by_ref texts action ref)
  IsWithin-type_by_ref action none = IsWithin-type_by_field action
  IsWithin-type_by_ref action (some (kind, entity_id)) =
      elim (Bool-cases (is_some (texts.uuid_string entity_id))) [
        | inl known ↦ rw known (count-clip 50 kind)
        | inr other ↦ rw other (IsWithin-type_by_field action)
      ]

  IsWithin-explicit :
      (action : PlannedAction) (t : Option String) → IsWithin 50 (explicit_type texts action t)
  IsWithin-explicit action (some t) = count-clip 50 t
  IsWithin-explicit action none = IsWithin-type_by_ref action (entity_ref texts action)

  IsWithin-target_type :
      (action : PlannedAction) (o : Option String) → IsWithin 50 (action_target_type texts action o)
  unfolding action_target_type
  IsWithin-target_type action none = omega arith
  IsWithin-target_type action (some target_id) = IsWithin-explicit action _

  upsert_action-IsBounded :
      (plan : AgentPlan) (action : PlannedAction) (b : Bool) (message : Option String)
      → IsBounded (upsert_action texts plan action b message)
  unfolding upsert_action action_api_type
  upsert_action-IsBounded plan action b message = (
    count-clip 50 _,
    IsWithin-target_type action _,
    count-clip 5000 action.instruction,
    IsWithin-error _ message,
  )

  actions-IsBounded :
      (plan : AgentPlan) (actions : List PlannedAction)
      → All IsBounded (map (λ action. upsert_action texts plan action false none) actions)
  actions-IsBounded plan [] = tt
  actions-IsBounded plan (a ∷ actions) =
      (upsert_action-IsBounded plan a false none, actions-IsBounded plan actions)

  events-IsBounded :
      (plan : AgentPlan) (action : PlannedAction) (name : String) (message : Option String)
      (rest : List Request)
      → All IsBounded rest
      → All IsBounded (event_request texts plan action name message ++ rest)
  events-IsBounded plan action name none rest h = h
  events-IsBounded plan action name (some message) rest h = (count-clip 5000 message, h)

  status-IsBounded : (plan : AgentPlan) → All IsBounded (status_request texts plan)
  status-IsBounded plan = elim (Bool-cases (reported_status texts plan == "running")) [
    | inl goes_on ↦ rw goes_on tt
    | inr ends ↦ rw ends (tt, tt)
  ]

  -- Whatever a plan, its actions and the messages hold, the titles that are sent have at most 255
  -- characters, the types 50, the prompt version 100, and the objective, the summaries of the input and
  -- of the reasoning, the errors and the messages 5000.
  pub requests-IsBounded :
      (context : AgentContext) (run_id objective prompt_version workspace_id message name : String)
      (plan : AgentPlan) (action : PlannedAction) (note : Option String) (order : ℕ)
      → All IsBounded (record_run_started texts context run_id objective prompt_version)
        × All IsBounded (record_plan_created texts plan)
        × All IsBounded (record_run_failed texts workspace_id run_id message)
        × All IsBounded (action_requests texts plan action name note order)
  unfolding record_run_started record_plan_created record_run_failed action_requests
      agent_run_create_payload
  requests-IsBounded context run_id objective prompt_version workspace_id message name plan action
        note order =
      (
        ((count-clip 5000 _, count-clip 100 prompt_version), tt),
        ((count-clip 255 _, tt, tt), actions-IsBounded plan plan.actions),
        ((omega arith, tt, count-clip 5000 message), (tt, tt)),
        (
          (count-clip 255 _, count-clip 5000 action.instruction, IsWithin-error _ note),
          (
            upsert_action-IsBounded plan action true note,
            events-IsBounded plan action name (message_of note) _ (status-IsBounded plan),
          ),
        ),
      )
