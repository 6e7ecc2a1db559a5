-- ===== src/Application/Planner.antt =====
-- src/application/planner.py: a plan for a workflow or for a node of one. The planning agent is the
-- outside world; what it returns is made fit for the runtime here.
pub mod Approvals
pub mod Chains
pub mod Plans
pub mod Refusals
use prism_agent.Prelude.{
  ℕ, zero, suc, ◌+◌, String, Bool, true, false, Option, none, some, List, [], ◌∷◌, ◌++◌, map, Dict,
  lookup, insert, elem, is_empty, if◌then◌else◌, ◌==◌, select, Eq, string_eq,
}
use prism_agent.Prelude.Fallible.{Fallible, ok, invalid, ◌>>=◌ as bind}
use prism_agent.Prelude.Decimal.{decimal}
use Prim.Native.Nat.{Ordering}
use Prim.Native.String.{compare, ◌++◌ as cat}
use prism_agent.Domain.Json.{Fields, end, field}
use prism_agent.Domain.Events.{text_or}
use prism_agent.Domain.Actions.{PlannedAction, ActionStatus}
use prism_agent.Domain.Plans.{AgentPlan, PlanStatus}
use prism_agent.Domain.Policies.{
  ActionApprovalPolicy, ApprovalMode, auto_commit, user_approval_required, suggest_only, mode_or,
  requires_approval,
}
use prism_agent.Domain.Results.{AgentContext}
use prism_agent.Infrastructure.Registries.{
  WorkflowDefinition, ToolRegistry, AgentTool, get_workflow_prompt, select_skills,
  allowed_tools_for, select_tools, tool_definition,
}
use prism_agent.Application.Effects.{
  Outside, Action, PlanTask, generate_plan, value_error, pure, throw, outside, of_fallible, ◌>>=◌,
  ◌>>◌,
}

-- What `create_plan` is called with.
pub record PlanRequest : Type 0 where
  pub context : AgentContext
  pub context_snapshot_ref : String
  pub workflow : WorkflowDefinition
  pub agent_run_id : String
  pub plan_id : Option String
  pub skill_ids : Option (List String)
  pub context_scope : Option (List String)
  pub model_tier : Option String

abbrev pub approval_value_map : Dict String ApprovalMode
approval_value_map =
    ("auto_commit", auto_commit)
    ∷ ("user_approval_required", user_approval_required)
    ∷ ("suggest_only", suggest_only)
    ∷ ("suggest", suggest_only)
    ∷ []

-- The entities of a scope. A list stands for the set of its names.
unfoldable pub slice : List String → Fields → Fields
slice scope end = end
slice scope (field k v rest) =
    let kept = slice scope rest in if elem k scope then field k v kept else kept

-- `_scope_context`
unfoldable pub scope_context : AgentContext → Option (List String) → AgentContext
scope_context context none = context
scope_context context (some []) = context
scope_context context (some (s ∷ scope)) = record context {
  entities = slice (s ∷ scope) context.entities;
}

-- `_idempotency_prefix`
abbrev run_prefix : AgentContext → String → String
run_prefix context agent_run_id = text_or context.source_event.event.idempotency_key agent_run_id

unfoldable pub idempotency_prefix : AgentContext → String → Option String → String
idempotency_prefix context agent_run_id none = run_prefix context agent_run_id
idempotency_prefix context agent_run_id (some plan_id) =
    if plan_id == agent_run_id then run_prefix context agent_run_id else plan_id

abbrev pub mode_named : String → ApprovalMode
mode_named mode = mode_or user_approval_required (lookup mode approval_value_map)

unfoldable pub tool_modes : Dict String String → Dict String ApprovalMode
tool_modes [] = []
tool_modes ((tool_name, mode) ∷ rest) = (tool_name, mode_named mode) ∷ tool_modes rest

-- `_approval_policy`
unfoldable pub approval_policy : Dict String String → ActionApprovalPolicy
approval_policy raw_policy = record {
  default_mode = auto_commit;
  tool_modes = tool_modes raw_policy;
}

-- `_tool_approval_policy`
unfoldable pub tool_approval_policy :
    ToolRegistry → List String → Dict String String → Fallible (Dict String String)
tool_approval_policy registry [] policies = ok policies
tool_approval_policy registry (name ∷ names) policies =
    bind (tool_definition registry name) (λ definition.
      tool_approval_policy registry names (insert name definition.approval_policy policies))

-- `a | b` for two dicts.
unfoldable pub merge : Dict String String → Dict String String → Dict String String
merge a [] = a
merge a ((k, v) ∷ b) = merge (insert k v a) b

-- The actions that `_normalize_plan_for_runtime` makes, from an index and a previous action on.
abbrev pub previous_ids : Option String → List String
previous_ids none = []
previous_ids (some previous) = if previous == "" then [] else previous ∷ []

module _ (context : AgentContext) (plan_id prefix : String) (policy : ActionApprovalPolicy) where
  unfoldable pub normalized_action : ℕ → Option String → PlannedAction → PlannedAction
  normalized_action index previous action = record action {
    plan_id = plan_id;
    depends_on = previous_ids previous;
    requires_approval = requires_approval policy action.tool_name;
    status = ActionStatus.pending;
    idempotency_key = cat prefix (cat ":" (cat action.tool_name (cat ":" (decimal index))));
    expected_entity_versions = context.entity_versions;
  }

  unfoldable pub normalized_actions : ℕ → Option String → List PlannedAction → List PlannedAction
  normalized_actions index previous [] = []
  normalized_actions index previous (action ∷ actions) =
      normalized_action index previous action
      ∷ normalized_actions (index + 1) (some action.action_id) actions

-- The prompt, the skills and the tools that a plan is made with.
pub record PlanOrigin : Type 0 where
  pub prompt_id : String
  pub prompt_version : String
  pub goal : String
  pub skill_ids : List String
  pub tool_names : List String

-- `_normalize_plan_for_runtime`
unfoldable pub normalize_plan :
    AgentPlan
    → AgentContext
    → String
    → (plan_id prefix : String) → PlanOrigin
    → ActionApprovalPolicy
    → AgentPlan
normalize_plan plan context context_snapshot_ref plan_id prefix origin policy = record plan {
  plan_id = plan_id;
  source_event_id = context.source_event.event.event_id;
  workspace_id = context.workspace_id;
  project_id = context.project_id;
  goal = origin.goal;
  prompt_id = origin.prompt_id;
  prompt_version = origin.prompt_version;
  skill_ids = origin.skill_ids;
  tool_names = origin.tool_names;
  context_snapshot_ref = context_snapshot_ref;
  actions = normalized_actions context plan_id prefix policy 1 none plan.actions;
  status = PlanStatus.planned;
}

-- `sorted` of a set: in order, and each text once.
unfoldable pub insert_sorted : String → List String → List String
insert_sorted t [] = t ∷ []
insert_sorted t (x ∷ xs) =
    let later = x ∷ insert_sorted t xs in
    elim (compare t x) [ Ordering.lt ↦ t ∷ x ∷ xs | Ordering.eq ↦ x ∷ xs | Ordering.gt ↦ later ]

unfoldable pub sorted_set : List String → List String
sorted_set [] = []
sorted_set (t ∷ texts) = insert_sorted t (sorted_set texts)

-- `", ".join(texts)`
unfoldable pub joined : List String → String
joined [] = ""
joined (t ∷ []) = t
joined (t ∷ u ∷ texts) = cat t (cat ", " (joined (u ∷ texts)))

abbrev pub is_disallowed : List String → PlannedAction → Bool
is_disallowed allowed action = if elem action.tool_name allowed then false else true

unfoldable pub disallowed : List String → List PlannedAction → List String
disallowed allowed actions = map (λ a. a.tool_name) (select (is_disallowed allowed) actions)

-- `_ensure_plan_uses_allowed_tools`
unfoldable pub ensure_allowed : AgentPlan → List String → Fallible (Unit {0})
ensure_allowed plan allowed =
    let tools = disallowed allowed plan.actions in
    if is_empty tools
    then ok tt
    else invalid
        (cat "Plan contains tools not allowed by selected skills: " (joined (sorted_set tools)))

abbrev pub skill_names : PlanRequest → Option (List String) → List String
skill_names request none = request.workflow.required_skills
skill_names request (some ids) = ids

-- `plan_id or agent_run_id`
abbrev pub target_plan_id : PlanRequest → String
target_plan_id request = text_or request.plan_id request.agent_run_id

unfoldable pub create_plan : Outside → PlanRequest → Action AgentPlan
create_plan world request = do
  let names = skill_names request request.skill_ids
  let workflow = request.workflow
  prompt ←
      of_fallible
        (get_workflow_prompt world.registries.prompts workflow.prompt_id workflow.prompt_version)
  skills ← of_fallible (select_skills world.registries.skills names)
  allowed ← of_fallible (allowed_tools_for world.registries.skills names)
  tools ← of_fallible (select_tools world.registries.tools allowed)
  modes ← of_fallible (tool_approval_policy world.registries.tools allowed [])
  let policy = approval_policy (merge modes workflow.approval_policy)
  let task : PlanTask = record {
    prompt = prompt;
    skills = skills;
    tools = tools;
    model_tier = request.model_tier;
    context = scope_context request.context request.context_scope;
    context_snapshot_ref = request.context_snapshot_ref;
    approval_policy = policy;
  }
  plan ← outside (generate_plan task) (λ calls. world.generate calls task)
  let normalized =
      normalize_plan plan request.context request.context_snapshot_ref (target_plan_id request)
        (idempotency_prefix request.context request.agent_run_id request.plan_id)
        (record {
          prompt_id = prompt.id;
          prompt_version = prompt.version;
          goal = prompt.goal;
          skill_ids = map (λ skill. skill.id) skills;
          tool_names = map (λ tool. tool.name) tools;
        })
        policy
  of_fallible (ensure_allowed normalized allowed)
  pure normalized
