-- ===== src/Application/Planner/Plans.antt =====
-- What `create_plan` returns, and when it raises.
use prism_agent.Prelude.{
  ℕ, ◌+◌, String, ◌≡◌, ◌∙◌, sym, refl, ap, true, Option, none, some, List, [], ◌∷◌, ◌++◌, any, elem,
  All, All-impl, arith, Bool-cases, inl, inr, is_empty, Dict, distinct_keys,
}
use prism_agent.Prelude.Fallible.{ok}
use prism_agent.Capabilities.Definitions.{SkillPromptDefinition}
use prism_agent.Domain.Actions.{PlannedAction, ActionStatus}
use prism_agent.Domain.Plans.{AgentPlan, planned}
use prism_agent.Domain.Policies.{ActionApprovalPolicy, requires_approval}
use prism_agent.Domain.Results.{AgentContext}
use prism_agent.Infrastructure.Registries.{select_skills, allowed_tools_for}
use prism_agent.Infrastructure.Registries.Lookups.{allows, allowed_tools_for_lem}
use prism_agent.Application.Planner.Approvals.{WantsApproval, requires_approval-WantsApproval}
use prism_agent.Application.Effects.{Outside, Runtime, PlanTask, generate_plan, return}
use prism_agent.Application.Effects.Hoare.{
  Hoare, Hoare-return, Hoare-of_fallible, Hoare-then, Hoare-pure,
}
use prism_agent.Application.Effects.Keeps.{Keeps, Keeps-outside, keeps_rules}
use prism_agent.Application.Planner.{
  PlanRequest, skill_names, target_plan_id, approval_policy, tool_approval_policy, merge,
  normalized_action, normalized_actions, normalize_plan, ensure_allowed, disallowed, create_plan,
}

module _ (allowed : List String) where
  disallowed-none :
      (actions : List PlannedAction)
      → is_empty (disallowed allowed actions) ≡ true
      → All (λ a. elem a.tool_name allowed ≡ true) actions
  unfolding disallowed
  disallowed-none [] e = tt
  disallowed-none (a ∷ actions) e = elim (Bool-cases (elem a.tool_name allowed)) [
    | inl fine ↦ (fine, disallowed-none actions (ground (arith, fine, e)))
    | inr bad ↦ absurd (ground (arith, bad, e))
  ]

  ensure_allowed-ok :
      (plan : AgentPlan) (u : Unit {0})
      → ensure_allowed plan allowed ≡ ok u
      → All (λ a. elem a.tool_name allowed ≡ true) plan.actions
  unfolding ensure_allowed
  ensure_allowed-ok plan u e = elim (Bool-cases (is_empty (disallowed allowed plan.actions))) [
    | inl fine ↦ disallowed-none plan.actions fine
    | inr bad ↦ absurd (ground (arith, bad, e))
  ]

-- An action as a normalised plan has it.
pub record IsFit (context : AgentContext) (plan_id : String) (policy : ActionApprovalPolicy)
    (action : PlannedAction) : Type 0 where
  pub of_plan : action.plan_id ≡ plan_id
  pub is_pending : action.status ≡ ActionStatus.pending
  pub approval : action.requires_approval ≡ requires_approval policy action.tool_name
  pub versions : action.expected_entity_versions ≡ context.entity_versions

normalized_actions-IsFit :
    (context : AgentContext) (plan_id prefix : String) (policy : ActionApprovalPolicy) (index : ℕ)
    (previous : Option String) (actions : List PlannedAction)
    → All
        (IsFit context plan_id policy)
        (normalized_actions context plan_id prefix policy index previous actions)
unfolding normalized_actions normalized_action
normalized_actions-IsFit context plan_id prefix policy index previous [] = tt
normalized_actions-IsFit context plan_id prefix policy index previous (a ∷ actions) = (
  record { of_plan = refl; is_pending = refl; approval = refl; versions = refl },
  normalized_actions-IsFit context plan_id prefix policy (index + 1) (some a.action_id) actions,
)

-- An action as the runtime wants it: its approval follows the workflow and the definition of its tool.
pub record IsReady (world : Outside) (request : PlanRequest) (action : PlannedAction) : Type 0 where
  pub of_plan : action.plan_id ≡ target_plan_id request
  pub is_pending : action.status ≡ ActionStatus.pending
  pub approval :
      WantsApproval world.registries.tools request.workflow.approval_policy action.tool_name
        action.requires_approval
  pub versions : action.expected_entity_versions ≡ request.context.entity_versions

IsFit-IsReady :
    (world : Outside) (request : PlanRequest) (allowed : List String) (modes : Dict String String)
    (actions : List PlannedAction)
    → tool_approval_policy world.registries.tools allowed [] ≡ ok modes
    → distinct_keys request.workflow.approval_policy ≡ true
    → All (λ a. elem a.tool_name allowed ≡ true) actions
    → All
        (IsFit request.context
          (target_plan_id request)
          (approval_policy (merge modes request.workflow.approval_policy)))
        actions
    → All (IsReady world request) actions
IsFit-IsReady world request allowed modes [] known distinct h fit = tt
IsFit-IsReady world request allowed modes (a ∷ actions) known distinct h fit =
    let (definition, found, wanted) =
      requires_approval-WantsApproval world.registries.tools a.tool_name allowed modes
        request.workflow.approval_policy known distinct h.0 in
    (
      record {
        of_plan = fit.0.of_plan;
        is_pending = fit.0.is_pending;
        approval = (definition, found, fit.0.approval ∙ wanted);
        versions = fit.0.versions;
      },
      IsFit-IsReady world request allowed modes actions known distinct h.1 fit.1,
    )

-- A plan that is made for a request: it is new, for the run or the node of the request, and each
-- action is as the runtime wants it, with a tool that one of the skills allows.
pub record IsPlanFor (world : Outside) (request : PlanRequest) (plan : AgentPlan) : Type 0 where
  pub named : plan.plan_id ≡ target_plan_id request
  pub in_workspace : plan.workspace_id ≡ request.context.workspace_id
  pub is_new : plan.status ≡ planned
  pub skills : List SkillPromptDefinition
  pub selected :
      select_skills world.registries.skills (skill_names request request.skill_ids) ≡ ok skills
  pub tools_allowed : All (λ a. any (allows a.tool_name) skills ≡ true) plan.actions
  pub all_ready : All (IsReady world request) plan.actions

tools_of_skills :
    (world : Outside) (names allowed : List String) (skills : List SkillPromptDefinition)
    (actions : List PlannedAction)
    → select_skills world.registries.skills names ≡ ok skills
    → allowed_tools_for world.registries.skills names ≡ ok allowed
    → All (λ a. elem a.tool_name allowed ≡ true) actions
    → All (λ a. any (allows a.tool_name) skills ≡ true) actions
tools_of_skills world names allowed skills actions selected found h =
    let (tools, same, members, once) =
      allowed_tools_for_lem world.registries.skills names skills selected in
    let equal : tools ≡ allowed = ground (arith, same, found) in
    All-impl _ _ actions
      (λ a fine. sym (members a.tool_name) ∙ ap (λ l. elem a.tool_name l) equal ∙ fine) h

abbrev Any : Runtime → Type 0
Any s = Unit {0}

create_plan-Hoare :
    (world : Outside) (request : PlanRequest)
    → distinct_keys request.workflow.approval_policy ≡ true
    → Hoare Any (create_plan world request) (λ plan s. IsPlanFor world request plan) Any
unfolding create_plan normalize_plan
create_plan-Hoare world request distinct =
    let names = skill_names request request.skill_ids in
    Hoare-of_fallible _ _ (λ s h. tt)
      (λ prompt _.
        Hoare-of_fallible _ _ (λ s h. tt)
          (λ skills selected.
            Hoare-of_fallible _ _ (λ s h. tt)
              (λ allowed found.
                Hoare-of_fallible _ _ (λ s h. tt)
                  (λ tools _.
                    Hoare-of_fallible _ _ (λ s h. tt)
                      (λ modes known.
                        Hoare-then _ _ (Keeps-outside _ _ (λ s h. tt)) (λ s h. tt)
                          (λ plan.
                            Hoare-of_fallible _ _ (λ s h. tt)
                              (λ u fine. Hoare-pure _ (λ s h. record {
                                named = refl;
                                in_workspace = refl;
                                is_new = refl;
                                skills = skills;
                                selected = selected;
                                tools_allowed =
                                    tools_of_skills world names allowed skills _ selected found
                                      (ensure_allowed-ok allowed _ u fine);
                                all_ready =
                                    IsFit-IsReady world request allowed modes _ known distinct
                                      (ensure_allowed-ok allowed _ u fine)
                                      (normalized_actions-IsFit _ _ _ _ 1 none plan.actions);
                              }))))))))

-- For a workflow whose approval policy has each tool once, and whatever the planning agent answers: a
-- plan that is returned is new and Bears the identifier that was asked for, each of its tools is one
-- that a selected skill allows, and each of its actions is pending in that plan and expects the
-- versions of the context. An action wants approval exactly when the mode of its tool is not
-- `auto_commit`, and that mode is the one that the workflow gives, or else that of the tool's
-- definition.
pub create_plan-IsPlanFor :
    (world : Outside) (request : PlanRequest) (s : Runtime) (plan : AgentPlan)
    → distinct_keys request.workflow.approval_policy ≡ true
    → (create_plan world request s).0 ≡ return plan
    → IsPlanFor world request plan
create_plan-IsPlanFor world request s plan distinct e =
    Hoare-return (create_plan world request) (create_plan-Hoare world request distinct) s tt e

-- An invariant that the call of the planning agent keeps.
pub create_plan-Keeps :
    {P : Runtime → Type 0} (world : Outside)
    → ((s : Runtime) (task : PlanTask)
        → P s
        → P (record s { calls = s.calls ++ generate_plan task ∷ [] }))
    → (request : PlanRequest) → Keeps P (create_plan world request)
unfolding create_plan
create_plan-Keeps world asked request =
    let called = λ (s : Runtime) (task : PlanTask). asked s task in
    search (keeps_rules, Keeps-outside, called) depth 30
