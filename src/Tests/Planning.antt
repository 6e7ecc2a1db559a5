-- ===== src/Tests/Planning.antt =====
-- The registries, the planner and the orchestrator on a workflow of one skill and a graph of two nodes.
use prism_agent.Prelude.{
  String, ◌≡◌, refl, true, false, none, some, List, [], ◌∷◌, length, any, elem, ◌&&◌, arith,
  if◌then◌else◌, is_empty, lookup, insert,
}
use Prim.Native.String.{◌++◌}
use prism_agent.Prelude.Fallible.{ok, each}
use prism_agent.Capabilities.Definitions.{
  OrchestrationNodeDef, OrchestrationDef, OrchestrationMode, skill_ids,
}
use prism_agent.Domain.Actions.{PlannedAction, ActionStatus}
use prism_agent.Domain.Plans.{AgentPlan, PlanStatus, completed}
use prism_agent.Domain.Plans.Run.{commit_all}
use prism_agent.Domain.Policies.{ActionApprovalPolicy}
use prism_agent.Domain.Subtasks.{TaskGraph, claim_ready}
use prism_agent.Domain.Subtasks.Claims.{ids}
use prism_agent.Domain.Subtasks.Outcome.{IsAcyclic}
use prism_agent.Infrastructure.Registries.{
  WorkflowDefinition, WorkflowRegistry, bind_triggers, register_workflow, get_workflow,
  get_by_trigger, get_workflow_prompt, select_skills, get_skill, allowed_tools_for, collect_tools,
  add_new, select_tools, get_tool, tool_definition,
}
use prism_agent.Infrastructure.Registries.Lookups.{get_by_trigger-register_workflow}
use prism_agent.Application.Effects.{
  Outside, answered, return, raise, value_error, ◌>>=◌, outside, pure, of_fallible,
}
use prism_agent.Application.Coordinator.Tasks.{whole_request}
use prism_agent.Application.Planner.{
  PlanRequest, PlanOrigin, approval_policy, tool_approval_policy, merge, idempotency_prefix,
  normalized_action, normalized_actions, normalize_plan, ensure_allowed, disallowed, create_plan,
}
use prism_agent.Application.Planner.Chains.{normalize_plan-completed}
use prism_agent.Application.Planner.Plans.{IsPlanFor, create_plan-IsPlanFor}
use prism_agent.Application.Planner.Refusals.{
  IsFound, Ascending, listed, uses, is_foreign, create_plan-disallowed,
}
use prism_agent.Application.Orchestrator.{build_orchestrated_graph}
use prism_agent.Application.Orchestrator.Nodes.{Refused, all_have_skill, names}
use prism_agent.Application.Orchestrator.Graphs.{
  build_orchestrated_graph-Refused, build_orchestrated_graph-starts,
}
use prism_agent.Tests.Samples.{
  plan, plan_with, action, context, workflow, registries, world, ready_runtime, rank,
}

abbrev origin : PlanOrigin
origin = record {
  prompt_id = "f";
  prompt_version = "1";
  goal = "g";
  skill_ids = "k" ∷ [];
  tool_names = "create_sprint" ∷ [];
}

abbrev policy : ActionApprovalPolicy
policy = approval_policy (merge (("create_sprint", "auto_commit") ∷ []) [])

abbrev created : AgentPlan
created = normalize_plan plan context "c" "run" "run" origin policy

normalize_plan-completed_example : (commit_all (length plan.actions) created).status ≡ completed
normalize_plan-completed_example =
    normalize_plan-completed plan context "c" "run" "run" origin policy (refl, (refl, tt))
      (omega arith)

abbrev plan_request : PlanRequest
plan_request = whole_request context "c" workflow "run"

create_plan-returned : (create_plan world plan_request ready_runtime).0 ≡ return created
unfolding create_plan get_workflow_prompt select_skills get_skill allowed_tools_for collect_tools
    add_new select_tools get_tool tool_definition tool_approval_policy merge each lookup insert
    normalize_plan normalized_actions normalized_action ensure_allowed disallowed idempotency_prefix
    outside pure of_fallible ◌>>=◌
create_plan-returned = refl

create_plan-IsPlanFor_example : IsPlanFor world plan_request created
create_plan-IsPlanFor_example =
    create_plan-IsPlanFor world plan_request ready_runtime created refl create_plan-returned

abbrev bad_plan : AgentPlan
bad_plan =
    plan_with (record (action "a" [] ActionStatus.pending) { tool_name = "update_workitem" } ∷ [])
      PlanStatus.planned

abbrev bad_world : Outside
bad_world = record world { generate = λ calls task. answered bad_plan }

bad_world-IsFound : IsFound bad_world plan_request
unfolding get_workflow_prompt select_skills get_skill allowed_tools_for collect_tools add_new
    select_tools get_tool tool_definition tool_approval_policy each lookup insert
bad_world-IsFound = record {
  prompt = _;
  skills = _;
  allowed = _;
  tools = _;
  modes = _;
  has_prompt = refl;
  has_skills = refl;
  has_allowed = refl;
  has_tools = refl;
  has_modes = refl;
}

bad_world-is_bad :
    any (λ (a : PlannedAction). is_foreign bad_world-IsFound.skills a.tool_name) bad_plan.actions
    ≡ true
unfolding bad_world-IsFound get_workflow_prompt select_skills get_skill allowed_tools_for
    collect_tools add_new each lookup
bad_world-is_bad = refl

create_plan-disallowed_example :
    (names : List String) × ((create_plan bad_world plan_request ready_runtime).0
      ≡ raise
          (value_error ("Plan contains tools not allowed by selected skills: " ++ listed names)))
    × Ascending names
    × ((i : String)
        → elem i names ≡ (
            any (uses bad_world-IsFound.skills i) bad_plan.actions
            && is_foreign bad_world-IsFound.skills i))
create_plan-disallowed_example =
    create_plan-disallowed bad_world plan_request ready_runtime bad_world-IsFound bad_plan
      (λ task. refl) bad_world-is_bad

abbrev pub node_def : String → List String → List String → OrchestrationNodeDef
node_def i skills deps = record {
  node = i;
  skill = none;
  skills = skills;
  objective = "";
  context_scope = [];
  depends_on = deps;
  model_tier = none;
}

abbrev pub orchestration : OrchestrationDef
orchestration = record {
  mode = OrchestrationMode.static;
  default_graph = node_def "a" ("k" ∷ []) [] ∷ node_def "b" ("k" ∷ []) ("a" ∷ []) ∷ [];
  synthesizer = some (node_def "s" ("k" ∷ []) []);
}

abbrev pub orchestrated_workflow : WorkflowDefinition
orchestrated_workflow = record workflow { orchestration = some orchestration }

abbrev bare : OrchestrationDef
bare = record orchestration { synthesizer = some (node_def "s" [] []) }

bare-is_bare : all_have_skill bare ≡ false
unfolding skill_ids
bare-is_bare = refl

pub all_skilled : all_have_skill orchestration ≡ true
unfolding skill_ids
all_skilled = refl

build_orchestrated_graph-Refused_example : Refused (
    build_orchestrated_graph
      (some registries.skills)
      (record workflow { orchestration = some bare })
      "u"
      context)
build_orchestrated_graph-Refused_example =
    build_orchestrated_graph-Refused (some registries.skills)
      (record workflow { orchestration = some bare }) "u" context bare refl refl bare-is_bare

build_orchestrated_graph-starts_example :
    (g : TaskGraph) × (build_orchestrated_graph
        (some registries.skills)
        orchestrated_workflow
        "u"
        context
      ≡ ok g)
    × IsAcyclic rank g
    × (ids g.nodes ≡ names orchestration.default_graph)
    × (is_empty (ids (claim_ready g).1) ≡ false)
build_orchestrated_graph-starts_example =
    build_orchestrated_graph-starts (some registries.skills) orchestrated_workflow "u" context
      orchestration rank refl refl
      (record {
        named = (refl, (refl, tt));
        ranked = (tt, ((omega arith, tt), tt));
        closed = (tt, ((refl, tt), tt));
      })
      all_skilled

abbrev empty_registry : WorkflowRegistry
empty_registry = record { by_id = []; by_trigger = [] }

registered : register_workflow workflow empty_registry ≡ ok registries.workflows
unfolding register_workflow bind_triggers insert lookup
registered = refl

get_by_trigger-register_workflow_example :
    (get_workflow registries.workflows "f" ≡ ok workflow)
    × (get_by_trigger registries.workflows "domain.epic.created" ≡ (
        if elem "domain.epic.created" workflow.trigger_types
        then some workflow
        else get_by_trigger empty_registry "domain.epic.created"))
get_by_trigger-register_workflow_example =
    get_by_trigger-register_workflow workflow empty_registry registries.workflows
      "domain.epic.created" registered
