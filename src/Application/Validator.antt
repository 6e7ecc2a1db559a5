-- ===== src/Application/Validator.antt =====
-- src/application/validator.py.
use prism_agent.Prelude.{
  String, Bool, true, false, Option, none, some, [], ◌∷◌, map, Dict, lookup, if◌then◌else◌,
  string_eq,
}
use Prim.Native.String.{◌++◌}
use prism_agent.Domain.Json.{Json, text, boolean, null, object, end, field}
use prism_agent.Domain.Events.{RuntimeEvent, domain, child, text_or}
use prism_agent.Domain.Actions.{PlannedAction, Version}
use prism_agent.Domain.Policies.{diff}
use prism_agent.Domain.Results.{
  AgentContext, AgentSuggestion, ToolResult, ValidationResult, ValidationDecision, commit, suggest,
  retry, replan, fail, noop,
}
use prism_agent.Application.Effects.{
  Outside, Action, read_versions, pure, outside, fresh, wrapped, ◌>>=◌,
}

-- `context.permissions.get(tool_name, True)`
abbrev pub permitted_or : Option Bool → Bool
permitted_or none = true
permitted_or (some b) = b

unfoldable pub is_permitted : AgentContext → String → Bool
is_permitted context tool_name = permitted_or (lookup tool_name context.permissions)

abbrev pub verdict : ValidationDecision → Bool → Option String → ValidationResult
verdict decision valid reason = record {
  decision = decision;
  valid = valid;
  reason = reason;
  stale_entities = [];
  emitted_events = [];
  suggestion = none;
}

abbrev pub first_key : {V : Type 0} → Dict String V → Option String
first_key [] = none
first_key ((k, _) ∷ _) = some k

unfoldable pub approval_suggestion : String → PlannedAction → AgentContext → AgentSuggestion
approval_suggestion suggestion_id action context = record {
  suggestion_id = suggestion_id;
  workspace_id = context.workspace_id;
  project_id = context.project_id;
  plan_id = action.plan_id;
  action_id = action.action_id;
  title = "Approval required: " ++ action.tool_name;
  body = action.instruction;
  target_entity_ref = first_key action.expected_entity_versions;
  proposed_changes =
      field "tool_name" (text action.tool_name)
        (field "action_type" (text action.action_type) (field "input" (object action.input) end));
}

unfoldable pub suggestion_event : String → AgentSuggestion → AgentContext → RuntimeEvent
suggestion_event event_id suggestion context = record {
  kind = domain;
  event_id = event_id;
  event_type = "agent_suggestion.created";
  workspace_id = context.workspace_id;
  project_id = context.project_id;
  payload = field "suggestion_id" (text suggestion.suggestion_id) end;
  correlation_id = none;
  causality = child context.source_event.event.causality context.source_event.event.event_id;
  idempotency_key = none;
}

-- What follows the check of permissions, once the current versions are known.
unfoldable pub judge :
    Outside
    → PlannedAction
    → AgentContext
    → Dict String (Version × Version)
    → Action ValidationResult
judge world action context [] =
    if action.requires_approval
    then (do
      suggestion_id ← fresh world
      event_id ← fresh world
      let suggestion = approval_suggestion suggestion_id action context
      envelope ← wrapped world (suggestion_event event_id suggestion context)
      pure (record (verdict suggest true (some "approval_required")) {
        emitted_events = envelope ∷ [];
        suggestion = some suggestion;
      }))
    else pure (verdict commit true none)
judge world action context (entry ∷ stale) =
    pure (record (verdict replan false (some "stale_context")) { stale_entities = entry ∷ stale })

unfoldable pub current_versions :
    Outside → PlannedAction → AgentContext → Action (Dict String Version)
current_versions world action context =
    let call =
      read_versions context.workspace_id context.project_id
        (map (λ entry. entry.0) action.expected_entity_versions) in
    outside call (λ calls. world.versions calls call)

unfoldable pub validate_before_execution :
    Outside → PlannedAction → AgentContext → Action ValidationResult
validate_before_execution world action context =
    if is_permitted context action.tool_name
    then (do
      current ← current_versions world action context
      judge world action context (diff action.expected_entity_versions current))
    else pure (verdict fail false (some ("permission_denied:" ++ action.tool_name)))

unfoldable pub validate_after_execution : ToolResult → ValidationResult
validate_after_execution result =
    if result.success
    then record (verdict commit true none) {
      emitted_events = result.emitted_events;
      suggestion = result.suggestion;
    }
    else verdict retry false (some (text_or result.error "tool_execution_failed"))

-- `decision.value`
abbrev pub decision_name : ValidationDecision → String
decision_name commit = "commit"
decision_name suggest = "suggest"
decision_name retry = "retry"
decision_name replan = "replan"
decision_name fail = "fail"
decision_name noop = "noop"

abbrev pub reason_json : Option String → Json
reason_json none = null
reason_json (some reason) = text reason

unfoldable pub approval_result : String → PlannedAction → ValidationResult → ToolResult
approval_result result_id action validation = record {
  result_id = result_id;
  plan_id = action.plan_id;
  action_id = action.action_id;
  tool_name = action.tool_name;
  success = true;
  output = field "decision" (text (decision_name validation.decision)) (
      field "reason" (reason_json validation.reason) (
        field "requires_approval" (boolean true)
          (field "original_input" (object action.input) end)));
  error = none;
  emitted_events = validation.emitted_events;
  suggestion = validation.suggestion;
}
