-- ===== src/Application/ActionHandler/Quiet.antt =====
-- The branches of the action handler that run no tool and do not chain keep every invariant that
-- ignores the plumbing.
use prism_agent.Prelude.{String, refl, List, [], ◌∷◌, Option, none, some}
use prism_agent.Domain.Events.{RuntimeEvent, EventEnvelope}
use prism_agent.Domain.Actions.{PlannedAction, Version}
use prism_agent.Domain.Plans.{AgentPlan}
use prism_agent.Domain.Results.{AgentContext, ValidationResult}
use prism_agent.Prelude.{Dict}
use prism_agent.Application.Effects.{
  Outside, Runtime, Error, record_action_state, record_run_completed, report,
}
use prism_agent.Application.Effects.Keeps.{
  Keeps, Keeps-bind, keeps_rules, Keeps-try_except, Keeps-throw,
}
use prism_agent.Application.Effects.Plumbing.{
  Plumbing, Keeps-store, Keeps-trace, Keeps-fresh, Keeps-enqueue, Keeps-wrapped, Keeps-report,
  Keeps-call,
}
use prism_agent.Application.Validator.{current_versions, judge, validate_before_execution}
use prism_agent.Application.ActionHandler.Settle.{
  enqueue_events, settle_node, settle_run, settle_subplan, settle_if_subplan, finish_plan, no_next,
  enqueue_later,
}
use prism_agent.Application.ActionHandler.Branches.{
  note, sync, suggest_branch, replan_later, replan_branch, fail_branch, tool_raised, retry_branch,
  failed_branch,
}

pub ruleset plumbing_rules =
    (keeps_rules, Keeps-store, Keeps-trace, Keeps-fresh, Keeps-enqueue, Keeps-wrapped)

module _ {P : Runtime → Type 0} (p : Plumbing P) (world : Outside) where
  pub Keeps-enqueue_events : (l : List EventEnvelope) → Keeps P (enqueue_events world l)
  unfolding enqueue_events
  Keeps-enqueue_events [] = search plumbing_rules
  Keeps-enqueue_events (e ∷ l) =
      Keeps-bind _ _ (Keeps-enqueue p world e) (λ _. Keeps-enqueue_events l)

  Keeps-settle_node :
      (envelope : EventEnvelope) (plan : AgentPlan) (status parent : String) (node : Option String)
      (i : String) (message : Option String)
      → Keeps P (settle_node world envelope plan status parent node i message)
  unfolding settle_node
  Keeps-settle_node envelope plan status parent none i message = search plumbing_rules
  Keeps-settle_node envelope plan status parent (some n) i message = search plumbing_rules depth 12

  Keeps-settle_run :
      (envelope : EventEnvelope) (plan : AgentPlan) (status : String)
      (parent message : Option String)
      → Keeps P (settle_run world envelope plan status parent message)
  unfolding settle_run
  Keeps-settle_run envelope plan status none message = search plumbing_rules
  Keeps-settle_run envelope plan status (some r) message =
      search (plumbing_rules, Keeps-settle_node) depth 12

  pub Keeps-settle_subplan :
      (envelope : EventEnvelope) (plan : AgentPlan) (status : String) (message : Option String)
      → Keeps P (settle_subplan world envelope plan status message)
  unfolding settle_subplan
  Keeps-settle_subplan envelope plan status message =
      Keeps-settle_run envelope plan status plan.parent_run_id message

  pub Keeps-settle_if_subplan :
      (envelope : EventEnvelope) (plan : AgentPlan) (status : String) (message : Option String)
      → Keeps P (settle_if_subplan world envelope plan status message)
  unfolding settle_if_subplan
  Keeps-settle_if_subplan envelope plan status message =
      search (plumbing_rules, Keeps-settle_subplan)

  Keeps-reported : (plan : AgentPlan) → Keeps P (report world (record_run_completed plan))
  Keeps-reported plan = Keeps-report p world (record_run_completed plan) refl

  Keeps-finish_plan :
      (envelope : EventEnvelope) (plan : AgentPlan) → Keeps P (finish_plan world envelope plan)
  unfolding finish_plan
  Keeps-finish_plan envelope plan =
      search (plumbing_rules, Keeps-settle_subplan, Keeps-reported) depth 12

  pub Keeps-no_next :
      (envelope : EventEnvelope) (plan : AgentPlan) → Keeps P (no_next world envelope plan)
  unfolding no_next
  Keeps-no_next envelope plan = search (plumbing_rules, Keeps-finish_plan)

  pub Keeps-enqueue_later :
      (plan : AgentPlan) (next_action : PlannedAction) (event : RuntimeEvent)
      → Keeps P (enqueue_later world plan next_action event)
  unfolding enqueue_later
  Keeps-enqueue_later plan next_action event = search plumbing_rules depth 12

  pub Keeps-current_versions :
      (action : PlannedAction) (context : AgentContext)
      → Keeps P (current_versions world action context)
  unfolding current_versions
  Keeps-current_versions action context = Keeps-call p _ _ refl

  pub Keeps-judge :
      (action : PlannedAction) (context : AgentContext) (stale : Dict String (Version × Version))
      → Keeps P (judge world action context stale)
  unfolding judge
  Keeps-judge action context [] = search plumbing_rules depth 12
  Keeps-judge action context (x ∷ l) = search plumbing_rules

  pub Keeps-validate :
      (action : PlannedAction) (context : AgentContext)
      → Keeps P (validate_before_execution world action context)
  unfolding validate_before_execution
  Keeps-validate action context =
      search (plumbing_rules, Keeps-current_versions, Keeps-judge) depth 12

module _ {P : Runtime → Type 0} (p : Plumbing P) (world : Outside) (envelope : EventEnvelope)
    (plan : AgentPlan) (action : PlannedAction) where
  pub Keeps-note : (name message : String) → Keeps P (note world envelope plan action name message)
  unfolding note
  Keeps-note name message = search plumbing_rules

  pub Keeps-sync :
      (new_plan : AgentPlan) (new_action : PlannedAction) (name message : String)
      → Keeps P (sync world envelope plan action new_plan new_action name message)
  unfolding sync
  Keeps-sync new_plan new_action name message =
      Keeps-report p world (record_action_state new_plan new_action name message) refl

  pub Keeps-suggest_branch :
      (v : ValidationResult) → Keeps P (suggest_branch world envelope plan action v)
  unfolding suggest_branch
  Keeps-suggest_branch v =
      search (plumbing_rules, Keeps-note, Keeps-sync, Keeps-enqueue_events, Keeps-settle_if_subplan)
        depth 20

  Keeps-replan_later :
      (context : AgentContext) (new_plan : AgentPlan) (v : ValidationResult)
      → Keeps P (replan_later world envelope plan action context new_plan v)
  unfolding replan_later
  Keeps-replan_later context new_plan v = search (plumbing_rules, Keeps-note) depth 12

  pub Keeps-replan_branch :
      (context : AgentContext) (v : ValidationResult)
      → Keeps P (replan_branch world envelope plan action context v)
  unfolding replan_branch
  Keeps-replan_branch context v =
      search (plumbing_rules, Keeps-note, Keeps-sync, Keeps-settle_subplan, Keeps-replan_later)
        depth 20

  pub Keeps-fail_branch :
      (v : ValidationResult) → Keeps P (fail_branch world envelope plan action v)
  unfolding fail_branch
  Keeps-fail_branch v =
      search (plumbing_rules, Keeps-note, Keeps-sync, Keeps-settle_if_subplan) depth 20

  pub Keeps-tool_raised :
      (running_plan : AgentPlan) (e : Error)
      → Keeps P (tool_raised world envelope plan action running_plan e)
  unfolding tool_raised
  Keeps-tool_raised running_plan e =
      search (plumbing_rules, Keeps-try_except, Keeps-note, Keeps-sync, Keeps-settle_subplan) depth
        20

  pub Keeps-retry_branch :
      (running_plan : AgentPlan) (v : ValidationResult)
      → Keeps P (retry_branch world envelope plan action running_plan v)
  unfolding retry_branch
  Keeps-retry_branch running_plan v = search (plumbing_rules, Keeps-note, Keeps-sync) depth 20

  pub Keeps-failed_branch :
      (running_plan : AgentPlan) (v : ValidationResult)
      → Keeps P (failed_branch world envelope plan action running_plan v)
  unfolding failed_branch
  Keeps-failed_branch running_plan v =
      search (plumbing_rules, Keeps-note, Keeps-sync, Keeps-settle_if_subplan) depth 20
