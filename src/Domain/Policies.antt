-- ===== src/Domain/Policies.antt =====
-- src/domain/policies.py: which events start the agent, which tools need approval, and which entity
-- versions are out of date.
pub mod Laws
use prism_agent.Prelude.{
  ℕ, String, Bool, true, false, not, ◌&&◌, ◌||◌, Option, none, some, List, [], ◌∷◌, Dict, lookup,
  insert, elem, if◌then◌else◌, ◌==◌, leb, Eq, string_eq,
}
use Prim.Native.String.{◌++◌}
use prism_agent.Domain.Events.{
  RuntimeEvent, EventKind, domain, scheduled, manual, agent_action, subagent_task,
  subagent_completed,
}
use prism_agent.Domain.Actions.{Version, tag, revision}

abbrev pub allowed_manual_triggers : List String
allowed_manual_triggers =
    "decompose_story" ∷ "improve_workitem_description" ∷ "generate_acceptance_criteria"
    ∷ "plan_sprint" ∷ "summarize_project" ∷ "refine_backlog" ∷ "explain_project_risk" ∷ []

abbrev pub allowed_domain_triggers : List String
allowed_domain_triggers =
    "epic.created" ∷ "epic.description.updated" ∷ "feature.provisioning.requested" ∷ "story.created"
    ∷ "story.ready_for_breakdown" ∷ "sprint.started" ∷ "sprint.ended" ∷ "pr.opened"
    ∷ "pr.synchronize" ∷ "pr.review_requested" ∷ "pr.merged" ∷ []

abbrev pub allowed_scheduled_triggers : List String
allowed_scheduled_triggers =
    "daily_summary" ∷ "sprint_planning" ∷ "sprint_midpoint_risk_check" ∷ "sprint_end_risk_check"
    ∷ "sprint_report_generation" ∷ "stale_work_scan" ∷ []

abbrev pub ignored_low_value_triggers : List String
ignored_low_value_triggers =
    "task.updated" ∷ "comment.created" ∷ "field.updated" ∷ "artifact.updated"
    ∷ "status.changed.minor" ∷ []

abbrev pub terminal_event_types : List String
terminal_event_types =
    "agent_suggestion.created" ∷ "insight.created" ∷ "agent.completed" ∷ "agent.failed" ∷ []

pub record TriggerPolicyDecision : Type 0 where
  pub allowed : Bool
  pub trigger_key : String
  pub reason : String

-- `event.kind`
abbrev pub kind_name : EventKind → String
kind_name domain = "domain"
kind_name (scheduled _) = "scheduled"
kind_name (manual _) = "manual"
kind_name (agent_action _ _) = "agent_action"
kind_name (subagent_task _ _) = "subagent_task"
kind_name (subagent_completed _ _ _) = "subagent_completed"

unfoldable pub trigger_key_for : RuntimeEvent → String
trigger_key_for event =
    if kind_name event.kind == "agent_action"
    then "agent.action.requested"
    else kind_name event.kind ++ "." ++ event.event_type

unfoldable pub kind_allows : EventKind → String → Bool
kind_allows (manual _) event_type = elem event_type allowed_manual_triggers
kind_allows domain event_type = elem event_type allowed_domain_triggers
kind_allows (scheduled _) event_type = elem event_type allowed_scheduled_triggers
kind_allows (agent_action _ _) event_type = true
kind_allows _ event_type = false

-- The answer to the tests of `evaluate`: on the low-value list, on the terminal list, allowed.
unfoldable pub decision : Bool → Bool → Bool → String → TriggerPolicyDecision
decision true terminal allowed key = record {
  allowed = false;
  trigger_key = key;
  reason = "ignored_low_value_event";
}
decision false true allowed key = record {
  allowed = false;
  trigger_key = key;
  reason = "terminal_event";
}
decision false false allowed key = record {
  allowed = allowed;
  trigger_key = key;
  reason = (if allowed then "allowed" else "unsupported_event");
}

-- `PMTriggerPolicy.evaluate`
unfoldable pub evaluate : RuntimeEvent → TriggerPolicyDecision
evaluate event =
    decision (elem event.event_type ignored_low_value_triggers)
      (elem event.event_type terminal_event_types) (kind_allows event.kind event.event_type)
      (trigger_key_for event)

pub data ApprovalMode : Type 0 where
  auto_commit user_approval_required suggest_only : ApprovalMode

pub record ActionApprovalPolicy : Type 0 where
  pub default_mode : ApprovalMode
  pub tool_modes : Dict String ApprovalMode

abbrev pub mode_or : ApprovalMode → Option ApprovalMode → ApprovalMode
mode_or d none = d
mode_or d (some m) = m

unfoldable pub mode_for : ActionApprovalPolicy → String → ApprovalMode
mode_for policy tool_name = mode_or policy.default_mode (lookup tool_name policy.tool_modes)

abbrev pub needs_approval : ApprovalMode → Bool
needs_approval user_approval_required = true
needs_approval suggest_only = true
needs_approval auto_commit = false

unfoldable pub requires_approval : ActionApprovalPolicy → String → Bool
requires_approval policy tool_name = needs_approval (mode_for policy tool_name)

abbrev pub is_auto_commit : ApprovalMode → Bool
is_auto_commit auto_commit = true
is_auto_commit _ = false

unfoldable pub should_auto_commit : ActionApprovalPolicy → String → Bool
should_auto_commit policy tool_name = is_auto_commit (mode_for policy tool_name)

-- `RecursionLimitPolicy(max_depth).allows(depth)`
unfoldable pub allows : ℕ → ℕ → Bool
allows max_depth depth = leb depth max_depth

-- A text never equals a number.
unfoldable pub version_eq : Version → Version → Bool
version_eq (tag a) (tag b) = a == b
version_eq (revision a) (revision b) = leb a b && leb b a
version_eq _ _ = false

-- One round of the loop of `StaleContextPolicy.diff`.
unfoldable pub note_stale :
    String
    → Version
    → Option Version
    → Dict String (Version × Version)
    → Dict String (Version × Version)
note_stale entity_ref expected none stale = stale
note_stale entity_ref expected (some current) stale =
    if version_eq current expected then stale else insert entity_ref (expected, current) stale

unfoldable pub diff_from :
    Dict String (Version × Version)
    → Dict String Version
    → Dict String Version
    → Dict String (Version × Version)
diff_from stale [] current = stale
diff_from stale ((entity_ref, expected) ∷ rest) current =
    diff_from (note_stale entity_ref expected (lookup entity_ref current) stale) rest current

-- `StaleContextPolicy.diff`
unfoldable pub diff : Dict String Version → Dict String Version → Dict String (Version × Version)
diff expected current = diff_from [] expected current

-- `IdempotencyPolicy.key_for`
unfoldable pub key_for : String → String → String → String
key_for plan_id action_id tool_name = plan_id ++ ":" ++ action_id ++ ":" ++ tool_name
