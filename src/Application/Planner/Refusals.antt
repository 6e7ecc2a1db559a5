-- ===== src/Application/Planner/Refusals.antt =====
-- The plans that `create_plan` refuses, and the message.
use prism_agent.Prelude.{
  ℕ, ◌+◌, String, ◌≡◌, ◌∙◌, sym, refl, ap, Bool, true, false, not, ◌&&◌, ◌||◌, Option, none, some,
  List, [], ◌∷◌, any, elem, arith, Bool-cases, inl, inr, is_empty, Dict, ◌==◌, eq_iff,
}
use prism_agent.Prelude.Fallible.{ok}
use prism_agent.Prelude.Orders.{swap, swap-compare, Ordering-cases}
use Prim.Native.Nat.{Ordering}
use Prim.Native.String.{compare, ◌++◌ as cat}
use text.Mathlib.TextEquality.{path_by_compare}
use text.Mathlib.TextLemmas.{append-nil}
use prism_agent.Capabilities.Definitions.{SkillPromptDefinition, WorkflowPromptDefinition}
use prism_agent.Domain.Actions.{PlannedAction}
use prism_agent.Domain.Plans.{AgentPlan}
use prism_agent.Domain.Policies.{ActionApprovalPolicy}
use prism_agent.Domain.Results.{AgentContext}
use prism_agent.Infrastructure.Registries.{
  AgentTool, get_workflow_prompt, select_skills, allowed_tools_for, select_tools,
}
use prism_agent.Infrastructure.Registries.Lookups.{allows, allowed_tools_for_lem}
use prism_agent.Application.Effects.{
  Outside, Runtime, answered, PlanTask, raise, value_error, outside, pure, of_fallible, ◌>>=◌,
}
use prism_agent.Application.Planner.{
  PlanRequest, skill_names, tool_approval_policy, normalized_action, normalized_actions,
  normalize_plan, ensure_allowed, disallowed, is_disallowed, insert_sorted, joined, sorted_set,
  create_plan,
}

-- The lookups that `create_plan` makes succeed.
pub record IsFound (world : Outside) (request : PlanRequest) : Type 0 where
  pub prompt : WorkflowPromptDefinition
  pub skills : List SkillPromptDefinition
  pub allowed : List String
  pub tools : List AgentTool
  pub modes : Dict String String
  pub has_prompt :
      get_workflow_prompt world.registries.prompts request.workflow.prompt_id
        request.workflow.prompt_version
      ≡ ok prompt
  pub has_skills :
      select_skills world.registries.skills (skill_names request request.skill_ids) ≡ ok skills
  pub has_allowed :
      allowed_tools_for world.registries.skills (skill_names request request.skill_ids) ≡ ok allowed
  pub has_tools : select_tools world.registries.tools allowed ≡ ok tools
  pub has_modes : tool_approval_policy world.registries.tools allowed [] ≡ ok modes

disallowed-normalized :
    (allowed : List String) (context : AgentContext) (plan_id prefix : String)
    (policy : ActionApprovalPolicy) (index : ℕ) (previous : Option String)
    (actions : List PlannedAction)
    → disallowed allowed (normalized_actions context plan_id prefix policy index previous actions)
      ≡ disallowed allowed actions
unfolding disallowed normalized_actions normalized_action
disallowed-normalized allowed context plan_id prefix policy index previous [] = refl
disallowed-normalized allowed context plan_id prefix policy index previous (a ∷ actions) =
    let rest =
      disallowed-normalized allowed context plan_id prefix policy (index + 1) (some a.action_id)
        actions in
    elim (Bool-cases (elem a.tool_name allowed)) [
      | inl fine ↦ rw fine rest
      | inr bad ↦ rw bad (ap (λ l. a.tool_name ∷ l) rest)
    ]

disallowed-some :
    (allowed : List String) (actions : List PlannedAction)
    → any (is_disallowed allowed) actions ≡ true
    → is_empty (disallowed allowed actions) ≡ false
unfolding disallowed
disallowed-some allowed [] h = absurd (ground (arith, h))
disallowed-some allowed (a ∷ actions) h = elim (Bool-cases (elem a.tool_name allowed)) [
  | inl fine ↦ rw fine (disallowed-some allowed actions (ground (arith, fine, h)))
  | inr bad ↦ rw bad refl
]

-- The names are in order, each of them once.
abbrev Follows : String → List String → Type 0
Follows x [] = Unit
Follows x (y ∷ ys) = compare x y ≡ Ordering.lt

abbrev pub Ascending : List String → Type 0
Ascending [] = Unit
Ascending (x ∷ xs) = Follows x xs × Ascending xs

insert_sorted-lt :
    (t x : String) (xs : List String)
    → compare t x ≡ Ordering.lt
    → insert_sorted t (x ∷ xs) ≡ t ∷ x ∷ xs
unfolding insert_sorted
insert_sorted-lt t x xs h = rw (h, insert_sorted) refl

insert_sorted-eq :
    (t x : String) (xs : List String)
    → compare t x ≡ Ordering.eq
    → insert_sorted t (x ∷ xs) ≡ x ∷ xs
unfolding insert_sorted
insert_sorted-eq t x xs h = rw (h, insert_sorted) refl

insert_sorted-gt :
    (t x : String) (xs : List String)
    → compare t x ≡ Ordering.gt
    → insert_sorted t (x ∷ xs) ≡ x ∷ insert_sorted t xs
unfolding insert_sorted
insert_sorted-gt t x xs h = rw (h, insert_sorted) refl

Follows-insert_sorted :
    (x t : String) (xs : List String)
    → compare x t ≡ Ordering.lt
    → Follows x xs
    → Follows x (insert_sorted t xs)
unfolding insert_sorted
Follows-insert_sorted x t [] h f = h
Follows-insert_sorted x t (y ∷ ys) h f = elim (Ordering-cases (compare t y)) [
  | inl before ↦ rw (insert_sorted-lt t y ys before) h
  | inr (inl same) ↦ rw (insert_sorted-eq t y ys same) f
  | inr (inr behind) ↦ rw (insert_sorted-gt t y ys behind) f
]

Ascending-insert_sorted :
    (t : String) (xs : List String) → Ascending xs → Ascending (insert_sorted t xs)
unfolding insert_sorted
Ascending-insert_sorted t [] h = (tt, tt)
Ascending-insert_sorted t (x ∷ xs) h = elim (Ordering-cases (compare t x)) [
  | inl before ↦ rw (insert_sorted-lt t x xs before) (before, h)
  | inr (inl same) ↦ rw (insert_sorted-eq t x xs same) h
  | inr (inr behind) ↦ rw (insert_sorted-gt t x xs behind) (
    Follows-insert_sorted x t xs (swap-compare t x ∙ ap swap behind) h.0,
    Ascending-insert_sorted t xs h.1,
  )
]

Ascending-sorted_set : (texts : List String) → Ascending (sorted_set texts)
unfolding sorted_set
Ascending-sorted_set [] = tt
Ascending-sorted_set (t ∷ texts) = Ascending-insert_sorted t _ (Ascending-sorted_set texts)

elem-insert_sorted :
    (i t : String) (xs : List String) → elem i (insert_sorted t xs) ≡ (t == i || elem i xs)
unfolding insert_sorted
elem-insert_sorted i t [] = refl
elem-insert_sorted i t (x ∷ xs) = elim (Ordering-cases (compare t x)) [
  | inl before ↦ rw (insert_sorted-lt t x xs before) refl
  | inr (inl same) ↦
      rw (insert_sorted-eq t x xs same)
        (ground (arith, ap (λ z. z == i) (path_by_compare t x same)))
  | inr (inr behind) ↦
      rw (insert_sorted-gt t x xs behind) (ground (arith, elem-insert_sorted i t xs))
]

elem-sorted_set : (i : String) (texts : List String) → elem i (sorted_set texts) ≡ elem i texts
unfolding sorted_set
elem-sorted_set i [] = refl
elem-sorted_set i (t ∷ texts) =
    elem-insert_sorted i t (sorted_set texts) ∙ ap (λ b. t == i || b) (elem-sorted_set i texts)

-- The names with a comma and a space between them.
abbrev more : List String → String
more [] = ""
more (t ∷ texts) = cat ", " (cat t (more texts))

abbrev pub listed : List String → String
listed [] = ""
listed (t ∷ texts) = cat t (more texts)

joined-listed : (texts : List String) → joined texts ≡ listed texts
unfolding joined
joined-listed [] = refl
joined-listed (t ∷ []) = sym (append-nil t)
joined-listed (t ∷ u ∷ texts) = ap (λ s. cat t (cat ", " s)) (joined-listed (u ∷ texts))

module _ (skills : List SkillPromptDefinition) where
  abbrev pub uses : String → PlannedAction → Bool
  uses i action = action.tool_name == i

  -- A tool that none of the skills allows.
  abbrev pub is_foreign : String → Bool
  is_foreign i = not (any (allows i) skills)

  module _ (allowed : List String)
      (same : (t : String) → elem t allowed ≡ any (allows t) skills) where
    elem-disallowed :
        (i : String) (actions : List PlannedAction)
        → elem i (disallowed allowed actions) ≡ (any (uses i) actions && is_foreign i)
    unfolding disallowed
    elem-disallowed i [] = refl
    elem-disallowed i (a ∷ actions) = elim (Bool-cases (elem a.tool_name allowed)) [
      | inl fine ↦ rw fine (
          ground (
            arith,
            elem-disallowed i actions,
            eq_iff a.tool_name i,
            ap (λ t. elem t allowed),
            same i,
            fine,
          ))
      | inr bad ↦ rw bad (
          ground (
            arith,
            elem-disallowed i actions,
            eq_iff a.tool_name i,
            ap (λ t. elem t allowed),
            same i,
            bad,
          ))
    ]

    any-is_disallowed :
        (actions : List PlannedAction)
        → any (is_disallowed allowed) actions ≡ any (λ a. is_foreign a.tool_name) actions
    any-is_disallowed [] = refl
    any-is_disallowed (a ∷ actions) = ground (arith, same a.tool_name, any-is_disallowed actions)

create_plan-message :
    (world : Outside) (request : PlanRequest) (s : Runtime) (found : IsFound world request)
    (plan : AgentPlan)
    → ((task : PlanTask) → world.generate s.calls task ≡ answered plan)
    → any (is_disallowed found.allowed) plan.actions ≡ true
    → (create_plan world request s).0
      ≡ raise (
          value_error (
            cat "Plan contains tools not allowed by selected skills: "
              (joined (sorted_set (disallowed found.allowed plan.actions)))))
unfolding create_plan normalize_plan ensure_allowed of_fallible ◌>>=◌ outside pure
create_plan-message world request s found plan answer bad =
    rw
      (
        found.has_prompt,
        found.has_skills,
        found.has_allowed,
        found.has_tools,
        found.has_modes,
        answer _,
        disallowed-normalized found.allowed _ _ _ _ 1 none plan.actions,
        disallowed-some found.allowed plan.actions bad,
      )
      refl

-- When the lookups succeed and the planning agent answers a plan with a tool that no selected skill
-- allows, `create_plan` raises `ValueError`. Its message lists exactly the tools of the plan that no
-- selected skill allows, in ascending order and each of them once, with a comma and a space between.
pub create_plan-disallowed :
    (world : Outside) (request : PlanRequest) (s : Runtime) (found : IsFound world request)
    (plan : AgentPlan)
    → ((task : PlanTask) → world.generate s.calls task ≡ answered plan)
    → any (λ a. is_foreign found.skills a.tool_name) plan.actions ≡ true
    → (names : List String) × ((create_plan world request s).0
        ≡ raise (
            value_error
              (cat "Plan contains tools not allowed by selected skills: " (listed names))))
      × Ascending names
      × ((i : String)
          → elem i names ≡ (any (uses found.skills i) plan.actions && is_foreign found.skills i))
create_plan-disallowed world request s found plan answer bad =
    let (tools, known, members, once) =
      allowed_tools_for_lem world.registries.skills (skill_names request request.skill_ids)
        found.skills found.has_skills in
    let equal : tools ≡ found.allowed = ground (arith, known, found.has_allowed) in
    let same : (t : String) → elem t found.allowed ≡ any (allows t) found.skills =
      λ t. ap (λ l. elem t l) (sym equal) ∙ members t in
    (
      sorted_set (disallowed found.allowed plan.actions),
      create_plan-message world request s found plan answer
            (any-is_disallowed found.skills found.allowed same plan.actions ∙ bad)
          ∙ ap
              (λ names.
                raise
                  (value_error (cat "Plan contains tools not allowed by selected skills: " names)))
              (joined-listed _),
      Ascending-sorted_set _,
      λ i. elem-sorted_set i _ ∙ elem-disallowed found.skills found.allowed same i plan.actions,
    )
