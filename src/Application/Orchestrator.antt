-- ===== src/Application/Orchestrator.antt =====
-- src/application/orchestrator.py: the task graph of a workflow. The identifier that a graph draws by
-- `uuid4` is an argument.
pub mod Nodes
pub mod Graphs
use prism_agent.Prelude.{
  ℕ, zero, suc, ◌+◌, String, Bool, true, false, Option, none, some, List, [], ◌∷◌, map, is_empty,
  if◌then◌else◌, ◌==◌,
}
use prism_agent.Prelude.Fallible.{Fallible, ok, missing, invalid, ◌>>=◌, ◌>>◌}
use prism_agent.Prelude.Decimal.{decimal}
use Prim.Native.String.{◌++◌}
use prism_agent.Capabilities.Definitions.{OrchestrationNodeDef, OrchestrationDef, skill_ids}
use prism_agent.Domain.Results.{AgentContext}
use prism_agent.Domain.Subtasks.{SubTask, SubTaskStatus, TaskGraph}
use prism_agent.Infrastructure.Registries.{WorkflowDefinition, SkillRegistry, model_tier}

abbrev pub root_node_id : String
root_node_id = "root"

abbrev pub synthesizer_node_id : String
synthesizer_node_id = "synthesizer"

abbrev pub default_model_tier : String
default_model_tier = "pro"

-- `a or b` for two texts, and for two lists.
abbrev pub text_or_else : String → String → String
text_or_else a b = if a == "" then b else a

abbrev pub list_or_else : List String → List String → List String
list_or_else [] b = b
list_or_else (x ∷ a) b = x ∷ a

-- A graph as `TaskGraph(...)` makes it, with the defaults of the fields that are not given.
abbrev pub new_graph : String → AgentContext → List SubTask → Option SubTask → TaskGraph
new_graph fresh_id context nodes synthesizer = record {
  plan_id = fresh_id;
  workspace_id = context.workspace_id;
  project_id = context.project_id;
  context_snapshot_ref = none;
  version = 0;
  nodes = nodes;
  synthesizer_node = synthesizer;
}

unfoldable pub root_node : WorkflowDefinition → SubTask
root_node workflow = record {
  node_id = root_node_id;
  skill_ids = workflow.required_skills;
  objective = workflow.goal;
  depends_on = [];
  context_scope = [];
  model_tier = default_model_tier;
  status = SubTaskStatus.pending;
}

unfoldable pub build_task_graph : String → AgentContext → WorkflowDefinition → TaskGraph
build_task_graph fresh_id context workflow =
    new_graph fresh_id context (root_node workflow ∷ []) none

-- `except KeyError: return DEFAULT_MODEL_TIER`
abbrev pub tier_or_default : Fallible String → String
tier_or_default (ok tier) = tier
tier_or_default _ = default_model_tier

abbrev pub first_tier : Option SkillRegistry → List String → String
first_tier (some registry) (skill_id ∷ _) = tier_or_default (model_tier registry skill_id)
first_tier _ _ = default_model_tier

-- `_resolve_tier`
unfoldable pub resolve_tier : Option SkillRegistry → OrchestrationNodeDef → List String → String
resolve_tier registry def ids = elim def.model_tier [
  | none ↦ first_tier registry ids
  | some tier ↦ if tier == "" then first_tier registry ids else tier
]

module _ (registry : Option SkillRegistry) (workflow : WorkflowDefinition) where
  -- The node that `_build_node` makes, if there is a skill.
  unfoldable pub new_node :
      OrchestrationNodeDef
      → (fallback_node_id : String) (default_depends_on : List String) → SubTask
  new_node def fallback_node_id default_depends_on = record {
    node_id = text_or_else def.node fallback_node_id;
    skill_ids = skill_ids def;
    objective = text_or_else def.objective workflow.goal;
    depends_on = list_or_else def.depends_on default_depends_on;
    context_scope = def.context_scope;
    model_tier = resolve_tier registry def (skill_ids def);
    status = SubTaskStatus.pending;
  }

  -- `_build_node`
  unfoldable pub build_node :
      OrchestrationNodeDef
      → (fallback_node_id : String) (default_depends_on : List String) → Fallible SubTask
  build_node def fallback_node_id default_depends_on =
      if is_empty (skill_ids def)
      then invalid (
          "Orchestration node '"
          ++ text_or_else def.node fallback_node_id
          ++ "' in workflow '"
          ++ workflow.id
          ++ "' declares no skill.")
      else ok (new_node def fallback_node_id default_depends_on)

  -- The nodes of the graph, from an index on.
  unfoldable pub build_nodes : ℕ → List OrchestrationNodeDef → Fallible (List SubTask)
  build_nodes index [] = ok []
  build_nodes index (def ∷ defs) = do
    node ← build_node def ("node_" ++ decimal index) []
    nodes ← build_nodes (index + 1) defs
    ok (node ∷ nodes)

  unfoldable pub build_synthesizer :
      Option OrchestrationNodeDef → List SubTask → Fallible (Option SubTask)
  build_synthesizer none nodes = ok none
  build_synthesizer (some def) nodes = do
    node ← build_node def synthesizer_node_id (map (λ node. node.node_id) nodes)
    ok (some node)

  unfoldable pub build_from :
      String
      → AgentContext
      → List OrchestrationNodeDef
      → Option OrchestrationNodeDef
      → Fallible TaskGraph
  build_from fresh_id context defs synthesizer_def = do
    nodes ← build_nodes 0 defs
    synthesizer ← build_synthesizer synthesizer_def nodes
    ok (new_graph fresh_id context nodes synthesizer)

  abbrev pub graph_of :
      String
      → AgentContext
      → List OrchestrationNodeDef
      → Option OrchestrationNodeDef
      → Fallible TaskGraph
  graph_of fresh_id context [] synthesizer = ok (build_task_graph fresh_id context workflow)
  graph_of fresh_id context (def ∷ defs) synthesizer =
      build_from fresh_id context (def ∷ defs) synthesizer

  abbrev pub orchestrated : String → AgentContext → Option OrchestrationDef → Fallible TaskGraph
  orchestrated fresh_id context none = ok (build_task_graph fresh_id context workflow)
  orchestrated fresh_id context (some orchestration) =
      graph_of fresh_id context orchestration.default_graph orchestration.synthesizer

  unfoldable pub build_orchestrated_graph : String → AgentContext → Fallible TaskGraph
  build_orchestrated_graph fresh_id context = orchestrated fresh_id context workflow.orchestration
