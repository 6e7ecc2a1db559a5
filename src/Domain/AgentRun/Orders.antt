-- ===== src/Domain/AgentRun/Orders.antt =====
-- The place of an action among the steps of its run.
use prism_agent.Prelude.{
  ℕ, zero, suc, ◌+◌, ◌<◌, ◌≤◌, String, ◌≡◌, refl, true, false, Option, none, some, List, [], ◌∷◌,
  any, length, arith, Bool-cases, inl, inr, ◌==◌,
}
use prism_agent.Prelude.Fallible.{ok, invalid}
use prism_agent.Domain.Actions.{PlannedAction}
use prism_agent.Domain.Plans.{AgentPlan, names_action}
use prism_agent.Domain.AgentRun.{step_order_from, action_step_order}

abbrev Bears : String → PlannedAction → Type 0
Bears i action = (action.action_id == i) ≡ true

-- The action at a place, counted from an index.
abbrev pub action_at : ℕ → List PlannedAction → Option PlannedAction
action_at n [] = none
action_at zero (a ∷ actions) = some a
action_at (suc n) (a ∷ actions) = action_at n actions

step_order_from-some :
    (index : ℕ) (actions : List PlannedAction) (i : String)
    → any (names_action i) actions ≡ true
    → (n m : ℕ) × (step_order_from index actions i ≡ some m)
      × (m ≡ index + n)
      × (n < length actions)
      × (a : PlannedAction) × (action_at n actions ≡ some a)
      × Bears i a
unfolding step_order_from
step_order_from-some index [] i h = absurd (ground (arith, h))
step_order_from-some index (a ∷ actions) i h = elim (Bool-cases (a.action_id == i)) [
  | inl here ↦ rw here (0, index, refl, omega arith, omega arith, a, refl, here)
  | inr later ↦
      let (n, m, e, same, small, b, found, named) =
        step_order_from-some (index + 1) actions i (ground (arith, later, h)) in
      rw later (suc n, m, e, omega (arith, same), omega (arith, small), b, found, named)
]

step_order_from-none :
    (index : ℕ) (actions : List PlannedAction) (i : String)
    → any (names_action i) actions ≡ false
    → step_order_from index actions i ≡ none
unfolding step_order_from
step_order_from-none index [] i h = refl
step_order_from-none index (a ∷ actions) i h =
    ground (arith, h, step_order_from-none (index + 1) actions i (ground (arith, h)))

-- The order of the step of an action in its plan is its place, from 1 to the number of actions.
pub action_step_order_lem :
    (plan : AgentPlan) (action : PlannedAction)
    → any (names_action action.action_id) plan.actions ≡ true
    → (n m : ℕ) × (action_step_order plan action ≡ ok m)
      × (m ≡ suc n)
      × (m ≤ length plan.actions)
      × (a : PlannedAction) × (action_at n plan.actions ≡ some a)
      × ((a.action_id == action.action_id) ≡ true)
unfolding action_step_order
action_step_order_lem plan action h =
    let (n, m, e, same, small, a, found, named) =
      step_order_from-some 1 plan.actions action.action_id h in
    (n, m, rw e refl, omega (arith, same), omega (arith, same, small), a, found, named)

-- An action that its plan does not have has no step order: `ValueError` is raised.
pub action_step_order-foreign :
    (plan : AgentPlan) (action : PlannedAction)
    → any (names_action action.action_id) plan.actions ≡ false
    → (message : String) × (action_step_order plan action ≡ invalid message)
unfolding action_step_order
action_step_order-foreign plan action h =
    rw (step_order_from-none 1 plan.actions action.action_id h) (_, refl)
