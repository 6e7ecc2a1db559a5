-- ===== src/Application/ContextProvider.antt =====
-- src/application/context_provider.py: the context of a run, read from the Prism API and the object
-- storage. The log lines are left out.
pub mod Scopes
use prism_agent.Prelude.{
  String, Bool, true, false, not, ◌&&◌, ◌||◌, Option, none, some, List, [], ◌∷◌, ◌++◌, any, elem,
  is_empty, select, if◌then◌else◌, Dict,
}
use prism_agent.Capabilities.Definitions.{OrchestrationNodeDef, OrchestrationDef}
use prism_agent.Domain.Json.{
  Json, null, text, array, object, Items, nil, cons, Fields, end, field, get, set, is_true, json_or,
}
use prism_agent.Domain.Events.{RuntimeEvent, EventEnvelope}
use prism_agent.Domain.Policies.{kind_name}
use prism_agent.Domain.Results.{AgentContext, ContextSnapshot}
use prism_agent.Infrastructure.Registries.{WorkflowDefinition, get_workflow_prompt}
use prism_agent.Application.Effects.{
  Outside, Action, fetch_json, fetch_context_entities, fetch_permissions, capture_entity_versions,
  validation_error, pure, throw, outside, of_fallible, try_except, fresh, ◌>>=◌, ◌>>◌,
}

abbrev pub with_synthesizer :
    List OrchestrationNodeDef → Option OrchestrationNodeDef → List OrchestrationNodeDef
with_synthesizer nodes none = nodes
with_synthesizer nodes (some synthesizer) = nodes ++ synthesizer ∷ []

abbrev pub wants_all : OrchestrationNodeDef → Bool
wants_all node = is_empty node.context_scope

abbrev pub in_scope_of : String → OrchestrationNodeDef → Bool
in_scope_of entity node = elem entity node.context_scope

abbrev pub scoped : List OrchestrationNodeDef → List String → List String
scoped nodes declared =
    if any wants_all nodes
    then declared
    else select (λ entity. any (in_scope_of entity) nodes) declared

abbrev pub context_nodes : Option OrchestrationDef → List OrchestrationNodeDef
context_nodes none = []
context_nodes (some o) =
    if is_empty o.default_graph then [] else with_synthesizer o.default_graph o.synthesizer

-- `_required_context`
unfoldable pub required_context : WorkflowDefinition → List String → List String
required_context workflow declared =
    let nodes = context_nodes workflow.orchestration in
    if is_empty nodes then declared else scoped nodes declared

-- `value is not None`
abbrev pub is_given : Option Json → Bool
is_given none = false
is_given (some null) = false
is_given (some v) = true

abbrev is_truthy : Option Json → Bool
is_truthy none = false
is_truthy (some v) = is_true v

abbrev either : Fields → String → String → Option Json
either data_fields key other = json_or (get data_fields key) (get data_fields other)

abbrev set_name : Fields → Option Json → Fields
set_name diff none = diff
set_name diff (some name) = set diff "repositoryFullName" name

-- `if repository_full_name and not pull_request_diff.get("repositoryFullName")`
unfoldable pub with_repository : Fields → Option Json → Fields
with_repository diff name =
    if is_truthy name && not (is_truthy (get diff "repositoryFullName"))
    then set_name diff name
    else diff

-- The event with the pull request of a blob, if there is one.
unfoldable pub inject_diff : RuntimeEvent → Fields → Option Json → RuntimeEvent
inject_diff event blob (some (object pull_request)) =
    let name =
      json_or (get blob "repositoryFullName")
        (either event.payload "repositoryFullName" "repository_full_name") in
    record event {
      payload =
          set (set event.payload "pull_request_diff" (object (with_repository pull_request name)))
            "pullRequest" (object pull_request);
    }
inject_diff event blob _ = event

abbrev is_inline : RuntimeEvent → Bool
is_inline event =
    is_given (get event.payload "pull_request_diff") || is_given (get event.payload "pullRequest")

module _ (world : Outside) where
  unfoldable pub fetch_diff : RuntimeEvent → Json → Action (Option Fields)
  fetch_diff event object_name = do
    let version_id = either event.payload "diffObjectVersionId" "diff_object_version_id"
    let call = fetch_json object_name version_id
    blob ← outside call (λ calls. world.blob calls call)
    pure (some blob)

  -- What follows the `try`: a blob was fetched, or not.
  abbrev pub inject_from : RuntimeEvent → Option Fields → RuntimeEvent
  inject_from event none = event
  inject_from event (some blob) = inject_diff event blob (either blob "pullRequest" "pull_request")

  unfoldable pub fetch_and_inject : RuntimeEvent → Json → Action RuntimeEvent
  fetch_and_inject event object_name = do
    blob ← try_except (fetch_diff event object_name) (λ exc. pure none)
    pure (inject_from event blob)

  unfoldable pub follow_pointer : RuntimeEvent → Option Json → Action RuntimeEvent
  follow_pointer event none = pure event
  follow_pointer event (some object_name) =
      if not (is_true object_name) || is_inline event
      then pure event
      else fetch_and_inject event object_name

  -- `_resolve_diff_pointer`
  unfoldable pub resolve_diff_pointer : RuntimeEvent → List String → Action RuntimeEvent
  resolve_diff_pointer event required =
      if world.has_diff_store && elem "pull_request_diff" required
      then follow_pointer event (either event.payload "diffObjectName" "diff_object_name")
      else pure event

  abbrev all_objects : Items → Bool
  all_objects nil = true
  all_objects (cons (object _) rest) = all_objects rest
  all_objects (cons _ rest) = false

  -- A `list[dict]` field of the context, which the model validates.
  abbrev pub dict_list : Option Json → Action Items
  dict_list none = pure nil
  dict_list (some (array items)) = if all_objects items then pure items else throw validation_error
  dict_list (some _) = throw validation_error

  unfoldable pub hydrate : EventEnvelope → WorkflowDefinition → Action ContextSnapshot
  hydrate envelope workflow = do
    let event = envelope.event
    prompt ←
        of_fallible
          (get_workflow_prompt world.registries.prompts workflow.prompt_id workflow.prompt_version)
    let required = required_context workflow prompt.required_context
    hydration_event ← resolve_diff_pointer event required
    let read_entities = fetch_context_entities hydration_event required
    entities ← outside read_entities (λ calls. world.entities calls read_entities)
    let read_permissions = fetch_permissions event
    permissions ← outside read_permissions (λ calls. world.permissions calls read_permissions)
    let capture = capture_entity_versions event entities
    versions ← outside capture (λ calls. world.versions calls capture)
    documents ← dict_list (get event.payload "retrieved_documents")
    outputs ← dict_list (get event.payload "previous_agent_outputs")
    snapshot_id ← fresh world
    pure (record {
      snapshot_id = snapshot_id;
      plan_id = none;
      workspace_id = event.workspace_id;
      project_id = event.project_id;
      workflow_id = workflow.id;
      context = record {
        workspace_id = event.workspace_id;
        project_id = event.project_id;
        source_event = envelope;
        workflow_id = workflow.id;
        entities = entities;
        retrieved_documents = documents;
        permissions = permissions;
        entity_versions = versions;
        previous_agent_outputs = outputs;
        runtime_metadata =
            field "trigger_event_type" (text event.event_type)
              (field "trigger_kind" (text (kind_name event.kind)) end);
      };
    })
