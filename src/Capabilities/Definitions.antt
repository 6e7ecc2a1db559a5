-- ===== src/Capabilities/Definitions.antt =====
-- src/capabilities/definitions.py and skills.py: the definitions of workflows, skills and tools. The
-- model settings of a workflow, which only the model provider reads, are left out.
use prism_agent.Prelude.{ℕ, String, Option, none, some, List, ◌∷◌, Dict, elem, if◌then◌else◌, ◌==◌}
use prism_agent.Domain.Json.{Fields}

pub record OrchestrationNodeDef : Type 0 where
  pub node : String
  pub skill : Option String
  pub skills : List String
  pub objective : String
  pub context_scope : List String
  pub depends_on : List String
  pub model_tier : Option String

-- `OrchestrationNodeDef.skill_ids`: the single skill comes first, unless the list has it.
abbrev with_first : Option String → List String → List String
with_first none ids = ids
with_first (some skill) ids =
    if skill == "" then ids else if elem skill ids then ids else skill ∷ ids

unfoldable pub skill_ids : OrchestrationNodeDef → List String
skill_ids def = with_first def.skill def.skills

pub data OrchestrationMode : Type 0 where
  hybrid static dynamic : OrchestrationMode

pub record OrchestrationDef : Type 0 where
  pub mode : OrchestrationMode
  pub default_graph : List OrchestrationNodeDef
  pub synthesizer : Option OrchestrationNodeDef

pub record WorkflowPromptDefinition : Type 0 where
  pub id : String
  pub version : String
  pub name : String
  pub description : String
  pub output_schema : String
  pub goal : String
  pub system : String
  pub constraints : List String
  pub required_context : List String
  pub trigger_types : List String
  pub required_skills : List String
  pub default_execution_mode : String
  pub approval_policy : Dict String String
  pub max_recursion_depth : ℕ
  pub orchestration : Option OrchestrationDef

pub record SkillPromptDefinition : Type 0 where
  pub id : String
  pub version : String
  pub name : String
  pub description : String
  pub instruction : String
  pub reasoning_instructions : List String
  pub allowed_tools : List String
  pub guardrails : Fields
  pub quality_expectations : List String
  pub model_tier : String

pub data RiskLevel : Type 0 where
  low medium high : RiskLevel

pub record ToolPromptDefinition : Type 0 where
  pub id : String
  pub version : String
  pub name : String
  pub description : String
  pub usage : List String
  pub do_not_use : List String
  pub risk_level : RiskLevel
  pub approval_policy : String
  pub input_contract : Fields
