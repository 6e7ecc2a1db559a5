-- ===== src/Infrastructure/Registries.antt =====
-- src/infrastructure/registries: the workflows, skills, tools and prompts that the runtime knows. A
-- prompt registry is modelled as it is after its files were loaded, and a tool by its name and definition.
pub mod Lookups
use prism_agent.Prelude.{
  ℕ, String, Bool, true, false, Option, none, some, List, [], ◌∷◌, ◌++◌, map, Dict, Key, lookup,
  insert, elem, is_empty, if◌then◌else◌, Eq, string_eq, pair_eq,
}
use prism_agent.Prelude.Fallible.{Fallible, ok, missing, invalid, or_missing, each, ◌>>=◌, ◌>>◌}
use Prim.Native.String.{◌++◌ as cat}
use prism_agent.Capabilities.Definitions.{
  OrchestrationDef, WorkflowPromptDefinition, SkillPromptDefinition, ToolPromptDefinition,
}

pub record PromptRegistry : Type 0 where
  pub workflows : Dict Key WorkflowPromptDefinition
  pub skills : Dict Key SkillPromptDefinition
  pub tools : Dict Key ToolPromptDefinition

-- `PromptRegistry.get_workflow`
unfoldable pub get_workflow_prompt :
    PromptRegistry → String → String → Fallible WorkflowPromptDefinition
get_workflow_prompt registry prompt_id version =
    or_missing (cat "Workflow prompt not registered: " (cat prompt_id (cat ":" version)))
      (lookup (prompt_id, version) registry.workflows)

-- `PromptRegistry.get_skill` and `get_tool`, whose version has a default.
abbrev pub default_version : String
default_version = "1.0.0"

unfoldable pub get_skill_prompt : PromptRegistry → String → String → Fallible SkillPromptDefinition
get_skill_prompt registry skill_id version =
    or_missing (cat "Skill prompt not registered: " (cat skill_id (cat ":" version)))
      (lookup (skill_id, version) registry.skills)

unfoldable pub get_tool_prompt : PromptRegistry → String → String → Fallible ToolPromptDefinition
get_tool_prompt registry tool_id version =
    or_missing (cat "Tool prompt not registered: " (cat tool_id (cat ":" version)))
      (lookup (tool_id, version) registry.tools)

pub record WorkflowDefinition : Type 0 where
  pub id : String
  pub trigger_types : List String
  pub required_skills : List String
  pub prompt_id : String
  pub prompt_version : String
  pub goal : String
  pub default_execution_mode : String
  pub approval_policy : Dict String String
  pub max_recursion_depth : ℕ
  pub orchestration : Option OrchestrationDef

-- `WorkflowRegistry._from_prompt`
unfoldable pub from_prompt : WorkflowPromptDefinition → WorkflowDefinition
from_prompt prompt = record {
  id = prompt.id;
  trigger_types = prompt.trigger_types;
  required_skills = prompt.required_skills;
  prompt_id = prompt.id;
  prompt_version = prompt.version;
  goal = prompt.goal;
  default_execution_mode = prompt.default_execution_mode;
  approval_policy = prompt.approval_policy;
  max_recursion_depth = prompt.max_recursion_depth;
  orchestration = prompt.orchestration;
}

pub record WorkflowRegistry : Type 0 where
  pub by_id : Dict String WorkflowDefinition
  pub by_trigger : Dict String WorkflowDefinition

-- `for trigger_type in workflow.trigger_types: self._by_trigger[trigger_type] = workflow`
unfoldable pub bind_triggers :
    WorkflowDefinition
    → List String
    → Dict String WorkflowDefinition
    → Dict String WorkflowDefinition
bind_triggers workflow [] by_trigger = by_trigger
bind_triggers workflow (trigger ∷ triggers) by_trigger =
    bind_triggers workflow triggers (insert trigger workflow by_trigger)

-- `WorkflowRegistry.register`
unfoldable pub register_workflow : WorkflowDefinition → WorkflowRegistry → Fallible WorkflowRegistry
register_workflow workflow registry =
    if is_empty workflow.required_skills
    then invalid (cat "Workflow must require at least one skill: " workflow.id)
    else if is_empty workflow.trigger_types
    then invalid (cat "Workflow must define at least one trigger: " workflow.id)
    else ok (record {
      by_id = insert workflow.id workflow registry.by_id;
      by_trigger = bind_triggers workflow workflow.trigger_types registry.by_trigger;
    })

unfoldable pub register_workflows :
    List WorkflowPromptDefinition → WorkflowRegistry → Fallible WorkflowRegistry
register_workflows [] registry = ok registry
register_workflows (prompt ∷ prompts) registry =
    register_workflow (from_prompt prompt) registry >>= register_workflows prompts

-- `WorkflowRegistry.from_prompt_registry`
unfoldable pub workflow_registry : PromptRegistry → Fallible WorkflowRegistry
workflow_registry prompts =
    register_workflows (map (λ entry. entry.1) prompts.workflows)
      (record { by_id = []; by_trigger = [] })

-- `WorkflowRegistry.get`
unfoldable pub get_workflow : WorkflowRegistry → String → Fallible WorkflowDefinition
get_workflow registry workflow_id =
    or_missing (cat "Workflow not registered: " workflow_id) (lookup workflow_id registry.by_id)

unfoldable pub get_by_trigger : WorkflowRegistry → String → Option WorkflowDefinition
get_by_trigger registry trigger_type = lookup trigger_type registry.by_trigger

-- The skills by their identifier: `_skills` and `_definitions`, which are written together.
pub record SkillRegistry : Type 0 where
  pub skills : Dict String SkillPromptDefinition

unfoldable pub register_skill : SkillPromptDefinition → SkillRegistry → SkillRegistry
register_skill skill registry = record registry { skills = insert skill.id skill registry.skills }

unfoldable pub register_skills : List SkillPromptDefinition → SkillRegistry → SkillRegistry
register_skills [] registry = registry
register_skills (skill ∷ skills) registry = register_skills skills (register_skill skill registry)

-- `SkillRegistry.from_prompt_registry`
unfoldable pub skill_registry : PromptRegistry → SkillRegistry
skill_registry prompts =
    register_skills (map (λ entry. entry.1) prompts.skills) (record { skills = [] })

-- `SkillRegistry.get`
unfoldable pub get_skill : SkillRegistry → String → Fallible SkillPromptDefinition
get_skill registry skill_id =
    or_missing (cat "Skill not registered: " skill_id) (lookup skill_id registry.skills)

unfoldable pub select_skills : SkillRegistry → List String → Fallible (List SkillPromptDefinition)
select_skills registry skill_ids = each (get_skill registry) skill_ids

-- `if tool_name not in seen: allowed_tools.append(tool_name); seen.add(tool_name)`
unfoldable pub add_new : List String → List String → List String
add_new [] allowed = allowed
add_new (tool_name ∷ names) allowed =
    add_new names (if elem tool_name allowed then allowed else allowed ++ tool_name ∷ [])

unfoldable pub collect_tools : List SkillPromptDefinition → List String → List String
collect_tools [] allowed = allowed
collect_tools (skill ∷ skills) allowed = collect_tools skills (add_new skill.allowed_tools allowed)

unfoldable pub allowed_tools_for : SkillRegistry → List String → Fallible (List String)
allowed_tools_for registry skill_ids = do
  skills ← select_skills registry skill_ids
  ok (collect_tools skills [])

-- `SkillRegistry.model_tier`
unfoldable pub model_tier : SkillRegistry → String → Fallible String
model_tier registry skill_id = do
  definition ←
      or_missing (cat "Skill definition not registered: " skill_id)
        (lookup skill_id registry.skills)
  ok definition.model_tier

pub record AgentTool : Type 0 where
  pub name : String
  pub definition : ToolPromptDefinition

-- The tools by their name: `_tools` and `_definitions`, which are written together.
pub record ToolRegistry : Type 0 where
  pub tools : Dict String AgentTool

unfoldable pub register_tool : AgentTool → ToolRegistry → ToolRegistry
register_tool tool registry = record registry { tools = insert tool.name tool registry.tools }

-- The keys of `TOOL_IMPLEMENTATIONS`.
abbrev pub tool_implementations : List String
tool_implementations =
    "create_agent_suggestion" ∷ "find_duplicate_workitems" ∷ "create_sprint"
    ∷ "add_sprint_work_items" ∷ "create_workitem" ∷ "create_workitem_tree" ∷ "update_workitem"
    ∷ "update_workitems_bulk" ∷ "assign_workitem" ∷ "update_workitem_status"
    ∷ "add_workitem_comment" ∷ "generate_sprint_report" ∷ "link_pull_request"
    ∷ "submit_pull_request_review" ∷ "create_dashboard_insight" ∷ []

-- A definition with no implementation is passed over.
unfoldable pub register_tools : List ToolPromptDefinition → ToolRegistry → ToolRegistry
register_tools [] registry = registry
register_tools (definition ∷ definitions) registry = register_tools definitions (
    if elem definition.id tool_implementations
    then register_tool (record { name = definition.id; definition = definition }) registry
    else registry)

-- `ToolRegistry.from_prompt_registry`
unfoldable pub tool_registry : PromptRegistry → ToolRegistry
tool_registry prompts =
    register_tools (map (λ entry. entry.1) prompts.tools) (record { tools = [] })

unfoldable pub get_tool : ToolRegistry → String → Fallible AgentTool
get_tool registry name = or_missing (cat "Tool not registered: " name) (lookup name registry.tools)

unfoldable pub select_tools : ToolRegistry → List String → Fallible (List AgentTool)
select_tools registry names = each (get_tool registry) names

-- `ToolRegistry.definition`
unfoldable pub tool_definition : ToolRegistry → String → Fallible ToolPromptDefinition
tool_definition registry name = do
  tool ← or_missing (cat "Tool definition not registered: " name) (lookup name registry.tools)
  ok tool.definition

pub record Registries : Type 0 where
  pub prompts : PromptRegistry
  pub workflows : WorkflowRegistry
  pub skills : SkillRegistry
  pub tools : ToolRegistry
