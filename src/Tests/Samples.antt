-- ===== src/Tests/Samples.antt =====
-- A graph of three nodes with a synthesizer, a plan of two actions, and a world that answers.
use prism_agent.Prelude.{
  ℕ, String, true, false, Option, none, some, List, [], ◌∷◌, if◌then◌else◌, ◌==◌,
}
use prism_agent.Capabilities.Definitions.{
  WorkflowPromptDefinition, SkillPromptDefinition, ToolPromptDefinition, low,
}
use prism_agent.Infrastructure.Registries.{WorkflowDefinition, Registries}
use prism_agent.Domain.Json.{end, nil}
use prism_agent.Domain.Events.{
  RuntimeEvent, EventEnvelope, EventKind, domain, agent_action, root_causality,
}
use prism_agent.Domain.Actions.{PlannedAction, ActionStatus, revision}
use prism_agent.Domain.Plans.{AgentPlan, PlanStatus}
use prism_agent.Domain.Subtasks.{SubTask, SubTaskStatus, TaskGraph}
use prism_agent.Domain.Results.{AgentContext, ContextSnapshot, ToolResult}
use prism_agent.Infrastructure.Queue
use prism_agent.Infrastructure.StateStore
use prism_agent.Application.Effects.{Outside, Runtime, answered}

abbrev pub node : String → List String → SubTaskStatus → SubTask
node i deps status = record {
  node_id = i;
  skill_ids = [];
  objective = "";
  depends_on = deps;
  context_scope = [];
  model_tier = "pro";
  status = status;
}

abbrev pub graph : List SubTask → Option SubTask → TaskGraph
graph nodes synthesizer = record {
  plan_id = "run";
  workspace_id = "w";
  project_id = none;
  context_snapshot_ref = none;
  version = 0;
  nodes = nodes;
  synthesizer_node = synthesizer;
}

abbrev pub synthesizer : SubTask
synthesizer = node "synthesizer" ("a" ∷ "b" ∷ []) SubTaskStatus.pending

abbrev pub fresh_graph : TaskGraph
fresh_graph =
    graph (node "a" [] SubTaskStatus.pending ∷ node "b" ("a" ∷ []) SubTaskStatus.pending ∷ [])
      (some synthesizer)

abbrev pub started_graph : TaskGraph
started_graph =
    graph (node "a" [] SubTaskStatus.running ∷ node "b" ("a" ∷ []) SubTaskStatus.pending ∷ [])
      (some synthesizer)

abbrev pub last_graph : TaskGraph
last_graph =
    graph (node "a" [] SubTaskStatus.completed ∷ node "b" ("a" ∷ []) SubTaskStatus.running ∷ [])
      none

abbrev pub stuck_graph : TaskGraph
stuck_graph =
    graph
      (node "a" [] SubTaskStatus.running
        ∷ node "b" [] SubTaskStatus.failed
        ∷ node "c" ("b" ∷ []) SubTaskStatus.pending
        ∷ [])
      none

abbrev pub rank : String → ℕ
rank i = if i == "a" then 0 else if i == "b" then 1 else 2

abbrev pub action : String → List String → ActionStatus → PlannedAction
action i deps status = record {
  action_id = i;
  plan_id = "p";
  action_type = "create";
  tool_name = "create_sprint";
  instruction = "";
  input = end;
  work_items = [];
  work_item_updates = [];
  target_item_ids = [];
  depends_on = deps;
  requires_approval = false;
  status = status;
  idempotency_key = i;
  expected_entity_versions = ("e", revision 1) ∷ [];
}

abbrev pub plan_with : List PlannedAction → PlanStatus → AgentPlan
plan_with actions status = record {
  plan_id = "p";
  parent_run_id = none;
  node_id = none;
  source_event_id = "s";
  workspace_id = "w";
  project_id = none;
  goal = "";
  prompt_id = "";
  prompt_version = "";
  skill_ids = [];
  tool_names = [];
  actions = actions;
  status = status;
  context_snapshot_ref = "c";
}

abbrev pub first_action : PlannedAction
first_action = action "a" [] ActionStatus.pending

abbrev pub plan : AgentPlan
plan = plan_with (first_action ∷ action "b" ("a" ∷ []) ActionStatus.pending ∷ []) PlanStatus.planned

abbrev pub ended_plan : AgentPlan
ended_plan =
    plan_with
      (action "a" [] ActionStatus.completed ∷ action "b" ("a" ∷ []) ActionStatus.completed ∷ [])
      PlanStatus.running

abbrev pub event : EventKind → String → RuntimeEvent
event kind event_type = record {
  kind = kind;
  event_id = "s";
  event_type = event_type;
  workspace_id = "w";
  project_id = none;
  payload = end;
  correlation_id = none;
  causality = root_causality;
  idempotency_key = none;
}

abbrev pub envelope_of : RuntimeEvent → EventEnvelope
envelope_of e = record { envelope_id = "v"; event = e; attempt = 0 }

abbrev pub request : EventEnvelope
request = envelope_of (event (agent_action "p" "a") "agent.action.requested")

abbrev pub context : AgentContext
context = record {
  workspace_id = "w";
  project_id = none;
  source_event = envelope_of (event domain "epic.created");
  workflow_id = "f";
  entities = end;
  retrieved_documents = nil;
  permissions = [];
  entity_versions = [];
  previous_agent_outputs = nil;
  runtime_metadata = end;
}

abbrev pub snapshot : ContextSnapshot
snapshot = record {
  snapshot_id = "c";
  plan_id = none;
  workspace_id = "w";
  project_id = none;
  workflow_id = "f";
  context = context;
}

abbrev pub tool_answer : PlannedAction → ToolResult
tool_answer a = record {
  result_id = "r";
  plan_id = a.plan_id;
  action_id = a.action_id;
  tool_name = a.tool_name;
  success = true;
  output = end;
  error = none;
  emitted_events = [];
  suggestion = none;
}

abbrev pub workflow_prompt : WorkflowPromptDefinition
workflow_prompt = record {
  id = "f";
  version = "1";
  name = "";
  description = "";
  output_schema = "AgentPlan";
  goal = "g";
  system = "";
  constraints = [];
  required_context = [];
  trigger_types = "domain.epic.created" ∷ [];
  required_skills = "k" ∷ [];
  default_execution_mode = "suggest";
  approval_policy = [];
  max_recursion_depth = 10;
  orchestration = none;
}

abbrev pub workflow : WorkflowDefinition
workflow = record {
  id = "f";
  trigger_types = "domain.epic.created" ∷ [];
  required_skills = "k" ∷ [];
  prompt_id = "f";
  prompt_version = "1";
  goal = "g";
  default_execution_mode = "suggest";
  approval_policy = [];
  max_recursion_depth = 10;
  orchestration = none;
}

abbrev pub skill : SkillPromptDefinition
skill = record {
  id = "k";
  version = "1.0.0";
  name = "";
  description = "";
  instruction = "";
  reasoning_instructions = [];
  allowed_tools = "create_sprint" ∷ [];
  guardrails = end;
  quality_expectations = [];
  model_tier = "pro";
}

abbrev pub tool : ToolPromptDefinition
tool = record {
  id = "create_sprint";
  version = "1.0.0";
  name = "";
  description = "";
  usage = [];
  do_not_use = [];
  risk_level = low;
  approval_policy = "auto_commit";
  input_contract = end;
}

abbrev pub registries : Registries
registries = record {
  prompts = record {
    workflows = (("f", "1"), workflow_prompt) ∷ [];
    skills = (("k", "1.0.0"), skill) ∷ [];
    tools = (("create_sprint", "1.0.0"), tool) ∷ [];
  };
  workflows = record {
    by_id = ("f", workflow) ∷ [];
    by_trigger = ("domain.epic.created", workflow) ∷ [];
  };
  skills = record { skills = ("k", skill) ∷ [] };
  tools = record {
    tools = ("create_sprint", record { name = "create_sprint"; definition = tool }) ∷ [];
  };
}

abbrev pub world : Outside
world = record {
  uuid = λ n. "u";
  has_tool = λ name. true;
  registries = registries;
  has_diff_store = false;
  strip = λ t. t;
  str = λ v. "";
  generate = λ calls task. answered plan;
  blob = λ calls call. answered end;
  entities = λ calls call. answered end;
  permissions = λ calls call. answered [];
  start = λ calls call. answered none;
  tool = λ calls a c. answered (tool_answer a);
  versions = λ calls call. answered (("e", revision 1) ∷ []);
  report = λ calls call. answered tt;
}

abbrev pub ready_runtime : Runtime
ready_runtime = record {
  store = record StateStore.empty {
    plans = (("w", "p"), plan) ∷ [];
    context_snapshots = (("w", "c"), snapshot) ∷ [];
  };
  queue = Queue.empty;
  inline_actions_used = 0;
  drawn = 0;
  calls = [];
}
