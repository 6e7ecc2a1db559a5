-- ===== src/Domain/Plans/Next.antt =====
-- The choice of the next action (`next_pending_action`).
use prism_agent.Prelude.{
  ℕ, String, ◌≡◌, ◌⊎◌, refl, true, none, some, List, [], ◌∷◌, map, elem, select, all, All, eq_iff,
  ◌==◌, find?-some, find?-none, arith, Bool-cases, inl, inr,
}
use prism_agent.Prelude.Dependencies
use mathlib.Core.List.{Memᴰ}
use prism_agent.Domain.Actions.{PlannedAction, ActionStatus, has_status, is_unblocked}
use prism_agent.Domain.Plans.{
  AgentPlan, PlanStatus, is_open, can_run, completed_action_ids, next_pending_action,
}

-- An action of that name that is completed.
abbrev pub IsCompleted : List PlannedAction → String → Type 0
IsCompleted actions i =
    (a : PlannedAction) × Memᴰ a actions × (a.action_id ≡ i) × (a.status ≡ ActionStatus.completed)

IsCompleted-later :
    (a : PlannedAction) (actions : List PlannedAction) (i : String)
    → IsCompleted actions i
    → IsCompleted (a ∷ actions) i
IsCompleted-later a actions i (b, here, named, done) = (b, Memᴰ.tail here, named, done)

elem-IsCompleted :
    (i : String) (actions : List PlannedAction)
    → elem i (map (λ a. a.action_id) (select (has_status ActionStatus.completed) actions)) ≡ true
    → IsCompleted actions i
elem-IsCompleted i [] h = absurd (ground (arith, h))
elem-IsCompleted i (a ∷ actions) h = elim (Bool-cases (has_status ActionStatus.completed a)) [
  | inl done ↦ elim (Bool-cases (a.action_id == i)) [
    | inl named ↦ (a, Memᴰ.head refl, (eq_iff a.action_id i).0 named, ground (arith, done))
    | inr other ↦
        IsCompleted-later a actions i (elem-IsCompleted i actions (ground (arith, done, other, h)))
  ]
  | inr going ↦
      IsCompleted-later a actions i (elem-IsCompleted i actions (ground (arith, going, h)))
]

all-IsCompleted :
    (names : List String) (actions : List PlannedAction)
    → all
        (λ i. elem i (map (λ a. a.action_id) (select (has_status ActionStatus.completed) actions)))
        names
      ≡ true
    → All (IsCompleted actions) names
all-IsCompleted [] actions h = tt
all-IsCompleted (i ∷ names) actions h = (
  elem-IsCompleted i actions (ground (arith, h)),
  all-IsCompleted names actions (ground (arith, h)),
)

-- A plan that may still run an action.
abbrev pub IsOpen : PlanStatus → Type 0
IsOpen s = (s ≡ PlanStatus.planned) ⊎ (s ≡ PlanStatus.running)

is_open-IsOpen : (s : PlanStatus) → is_open s ≡ true → IsOpen s
is_open-IsOpen PlanStatus.planned h = inl refl
is_open-IsOpen PlanStatus.running h = inr refl
is_open-IsOpen _ h = absurd (ground (arith, h))

unblocked-IsCompleted :
    (plan : AgentPlan) (action : PlannedAction)
    → is_unblocked action (completed_action_ids plan) ≡ true
    → All (IsCompleted plan.actions) action.depends_on
unfolding is_unblocked completed_action_ids
unblocked-IsCompleted plan action h = all-IsCompleted action.depends_on plan.actions h

-- The action that is chosen belongs to the plan and is pending, each action that it depends on is one
-- of the plan that is completed, and the plan is planned or running.
pub next_pending_action-some :
    (plan : AgentPlan) (action : PlannedAction)
    → next_pending_action plan ≡ some action
    → Memᴰ action plan.actions
      × IsOpen plan.status
      × (action.status ≡ ActionStatus.pending)
      × All (IsCompleted plan.actions) action.depends_on
unfolding next_pending_action
next_pending_action-some plan action h = elim (Bool-cases (is_open plan.status)) [
  | inl is_open_plan ↦
      let found =
        find?-some (can_run (completed_action_ids plan)) plan.actions {x = action}
          (ground (arith, is_open_plan, h)) in
      (
        found.0,
        is_open-IsOpen plan.status is_open_plan,
        ground (arith, found.1),
        unblocked-IsCompleted plan action (ground (arith, found.1)),
      )
  | inr closed ↦ absurd (ground (arith, closed, h))
]

abbrev pub ids : List PlannedAction → List String
ids = map (λ action. action.action_id)

-- The actions of a plan are pending or completed, and their dependencies are acyclic and name
-- actions of the plan.
pub record IsRunnable (rank : String → ℕ) (actions : List PlannedAction) : Type 0 where
  pub ranked : Dependencies.IsRanked (λ a. a.action_id) (λ a. a.depends_on) rank actions
  pub closed : Dependencies.IsClosed (λ a. a.action_id) (λ a. a.depends_on) (ids actions) actions
  pub settled :
      All
        (λ a.
          (has_status ActionStatus.pending a ≡ true) ⊎ (has_status ActionStatus.completed a ≡ true))
        actions

-- An open plan with acyclic dependencies has a next action until all of its actions are completed.
pub next_pending_action-none :
    (rank : String → ℕ) (plan : AgentPlan)
    → IsRunnable rank plan.actions
    → is_open plan.status ≡ true
    → next_pending_action plan ≡ none
    → all (has_status ActionStatus.completed) plan.actions ≡ true
unfolding next_pending_action completed_action_ids is_unblocked
next_pending_action-none rank plan r is_open_plan h =
    Dependencies.all_completed-of_idle (λ a. a.action_id) (λ a. a.depends_on)
      (has_status ActionStatus.pending) (has_status ActionStatus.completed) rank plan.actions
      r.ranked r.closed
      (find?-none (can_run (completed_action_ids plan)) plan.actions
        (ground (arith, is_open_plan, h)))
      r.settled
