-- ===== src/Application/Planner/Chains.antt =====
-- A plan that was normalised is a chain: each action waits for the one before it.
use prism_agent.Prelude.{
  ℕ, suc, ◌+◌, ◌<◌, String, ◌≡◌, refl, ap, true, false, Option, none, some, List, [], ◌∷◌, length,
  elem, All, All-impl, arith, Bool-cases, inl, inr, if◌then◌else◌, ◌==◌, eq_iff, eq_refl,
}
use prism_agent.Prelude.Dependencies
use prism_agent.Domain.Actions.{PlannedAction, ActionStatus, has_status}
use prism_agent.Domain.Plans.{AgentPlan, completed}
use prism_agent.Domain.Plans.Next.{ids, IsRunnable}
use prism_agent.Domain.Plans.Run.{commit_all, commit_all-completed, pending_count}
use prism_agent.Domain.Policies.{ActionApprovalPolicy}
use prism_agent.Domain.Results.{AgentContext}
use prism_agent.Infrastructure.Registries.Lookups.{AtMostOnce}
use prism_agent.Application.Planner.{
  previous_ids, normalized_action, normalized_actions, PlanOrigin, normalize_plan,
}

-- Where a text stands in a list.
abbrev pub position : List String → String → ℕ
position [] i = 0
position (x ∷ xs) i = if x == i then 0 else suc (position xs i)

-- The ranks rise along a list, and the first one is above what went before.
abbrev IsAbove : (String → ℕ) → Option String → String → Type 0
IsAbove rank none x = Unit
IsAbove rank (some p) x = rank p < rank x

abbrev IsRising : (String → ℕ) → Option String → List String → Type 0
IsRising rank previous [] = Unit
IsRising rank previous (x ∷ xs) = IsAbove rank previous x × IsRising rank (some x) xs

abbrev IsKnown : List String → Option String → Type 0
IsKnown known none = Unit
IsKnown known (some p) = elem p known ≡ true

elem_self : (l : List String) → All (λ x. elem x l ≡ true) l
elem_self [] = tt
elem_self (x ∷ l) =
    (ground (arith, eq_refl x), All-impl _ _ l (λ y h. ground (arith, h)) (elem_self l))

IsRising-shift :
    (rank rank' : String → ℕ) (p : String) (l : List String)
    → rank' p ≡ suc (rank p)
    → All (λ x. rank' x ≡ suc (rank x)) l
    → IsRising rank (some p) l
    → IsRising rank' (some p) l
IsRising-shift rank rank' p [] e es h = tt
IsRising-shift rank rank' p (x ∷ l) e es h =
    (omega (arith, e, es.0, h.0), IsRising-shift rank rank' x l es.0 es.1 h.1)

position-cons :
    (x : String) (xs l : List String)
    → elem x l ≡ false
    → All (λ y. position (x ∷ xs) y ≡ suc (position xs y)) l
position-cons x xs [] new = tt
position-cons x xs (y ∷ l) new =
    (ground (arith, eq_iff x y, eq_iff y x), position-cons x xs l (ground arith))

position-IsRising : (l : List String) → AtMostOnce l → IsRising (position l) none l
position-IsRising [] once = tt
position-IsRising (x ∷ []) once = (tt, tt)
position-IsRising (x ∷ y ∷ l) once =
    let others = position-cons x (y ∷ l) (y ∷ l) once.0 in
    let tail = position-IsRising (y ∷ l) once.1 in
    (
      tt,
      (
        ground (arith, others.0, eq_refl x),
        IsRising-shift (position (y ∷ l)) (position (x ∷ y ∷ l)) y l others.0 others.1 tail.1,
      ),
    )

module _ (context : AgentContext) (plan_id prefix : String) (policy : ActionApprovalPolicy) where
  abbrev chain : ℕ → Option String → List PlannedAction → List PlannedAction
  chain = normalized_actions context plan_id prefix policy

  ids-chain :
      (index : ℕ) (previous : Option String) (actions : List PlannedAction)
      → ids (chain index previous actions) ≡ ids actions
  unfolding normalized_actions normalized_action
  ids-chain index previous [] = refl
  ids-chain index previous (a ∷ actions) =
      ap (λ rest. a.action_id ∷ rest) (ids-chain (index + 1) (some a.action_id) actions)

  pending-chain :
      (index : ℕ) (previous : Option String) (actions : List PlannedAction)
      → All (λ a. has_status ActionStatus.pending a ≡ true) (chain index previous actions)
  unfolding normalized_actions normalized_action
  pending-chain index previous [] = tt
  pending-chain index previous (a ∷ actions) =
      (refl, pending-chain (index + 1) (some a.action_id) actions)

  pending_count-chain :
      (index : ℕ) (previous : Option String) (actions : List PlannedAction)
      → pending_count (chain index previous actions) ≡ length actions
  unfolding normalized_actions normalized_action
  pending_count-chain index previous [] = refl
  pending_count-chain index previous (a ∷ actions) =
      omega (arith, pending_count-chain (index + 1) (some a.action_id) actions)

  IsRanked-previous :
      (rank : String → ℕ) (previous : Option String) (x : String)
      → IsAbove rank previous x
      → All (λ d. rank d < rank x) (previous_ids previous)
  IsRanked-previous rank none x h = tt
  IsRanked-previous rank (some p) x h = elim (Bool-cases (p == "")) [
    | inl e ↦ rw e tt
    | inr e ↦ rw e (h, tt)
  ]

  IsClosed-previous :
      (known : List String) (previous : Option String)
      → IsKnown known previous
      → All (λ d. elem d known ≡ true) (previous_ids previous)
  IsClosed-previous known none h = tt
  IsClosed-previous known (some p) h = elim (Bool-cases (p == "")) [
    | inl e ↦ rw e tt
    | inr e ↦ rw e (h, tt)
  ]

  chain-IsRanked :
      (rank : String → ℕ) (index : ℕ) (previous : Option String) (actions : List PlannedAction)
      → IsRising rank previous (ids actions)
      → Dependencies.IsRanked
          (λ a. a.action_id)
          (λ a. a.depends_on)
          rank
          (chain index previous actions)
  unfolding normalized_actions normalized_action
  chain-IsRanked rank index previous [] h = tt
  chain-IsRanked rank index previous (a ∷ actions) h = (
    IsRanked-previous rank previous a.action_id h.0,
    chain-IsRanked rank (index + 1) (some a.action_id) actions h.1,
  )

  chain-IsClosed :
      (known : List String) (index : ℕ) (previous : Option String) (actions : List PlannedAction)
      → IsKnown known previous
      → All (λ i. elem i known ≡ true) (ids actions)
      → Dependencies.IsClosed
          (λ a. a.action_id)
          (λ a. a.depends_on)
          known
          (chain index previous actions)
  unfolding normalized_actions normalized_action
  chain-IsClosed known index previous [] p h = tt
  chain-IsClosed known index previous (a ∷ actions) p h = (
    IsClosed-previous known previous p,
    chain-IsClosed known (index + 1) (some a.action_id) actions h.0 h.1,
  )

  chain-IsRunnable :
      (actions : List PlannedAction)
      → AtMostOnce (ids actions)
      → IsRunnable (position (ids actions)) (chain 1 none actions)
  chain-IsRunnable actions once = record {
    ranked = chain-IsRanked (position (ids actions)) 1 none actions (position-IsRising _ once);
    closed =
        rw (ids-chain 1 none actions)
          (chain-IsClosed (ids actions) 1 none actions tt (elem_self (ids actions)));
    settled = All-impl _ _ _ (λ a h. inl h) (pending-chain 1 none actions);
  }

-- Whatever dependencies, statuses and approvals the planning agent wrote, a normalised plan whose
-- actions have different identifiers, with at least one action, is completed after as many
-- successful actions as it has.
pub normalize_plan-completed :
    (plan : AgentPlan) (context : AgentContext) (snapshot_ref plan_id prefix : String)
    (origin : PlanOrigin) (policy : ActionApprovalPolicy)
    → AtMostOnce (ids plan.actions)
    → 0 < length plan.actions
    → (commit_all
        (length plan.actions)
        (normalize_plan plan context snapshot_ref plan_id prefix origin policy)).status
      ≡ completed
unfolding normalize_plan
normalize_plan-completed plan context snapshot_ref plan_id prefix origin policy once some_action =
    let counted = pending_count-chain context plan_id prefix policy 1 none plan.actions in
    commit_all-completed (position (ids plan.actions)) (length plan.actions) _
      (chain-IsRunnable context plan_id prefix policy plan.actions once) refl
      (omega (arith, counted)) (omega (arith, counted))
