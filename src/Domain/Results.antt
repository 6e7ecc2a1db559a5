-- ===== src/Domain/Results.antt =====
-- src/domain/suggestions.py, context.py and results.py: what the runtime reads and reports. Times,
-- and the identifier and the diagnostic `data` of a trace entry, are left out.
use prism_agent.Prelude.{String, Bool, Option, List, Dict}
use prism_agent.Domain.Json.{Fields, Items}
use prism_agent.Domain.Events.{EventEnvelope}
use prism_agent.Domain.Actions.{Version}

pub record AgentSuggestion : Type 0 where
  pub suggestion_id : String
  pub workspace_id : String
  pub project_id : Option String
  pub plan_id : String
  pub action_id : String
  pub title : String
  pub body : String
  pub target_entity_ref : Option String
  pub proposed_changes : Fields

pub record AgentContext : Type 0 where
  pub workspace_id : String
  pub project_id : Option String
  pub source_event : EventEnvelope
  pub workflow_id : String
  pub entities : Fields
  pub retrieved_documents : Items
  pub permissions : Dict String Bool
  pub entity_versions : Dict String Version
  pub previous_agent_outputs : Items
  pub runtime_metadata : Fields

pub record ContextSnapshot : Type 0 where
  pub snapshot_id : String
  pub plan_id : Option String
  pub workspace_id : String
  pub project_id : Option String
  pub workflow_id : String
  pub context : AgentContext

pub data ValidationDecision : Type 0 where
  commit suggest retry replan fail noop : ValidationDecision

pub record ToolResult : Type 0 where
  pub result_id : String
  pub plan_id : String
  pub action_id : String
  pub tool_name : String
  pub success : Bool
  pub output : Fields
  pub error : Option String
  pub emitted_events : List EventEnvelope
  pub suggestion : Option AgentSuggestion

pub record ValidationResult : Type 0 where
  pub decision : ValidationDecision
  pub valid : Bool
  pub reason : Option String
  pub stale_entities : Dict String (Version × Version)
  pub emitted_events : List EventEnvelope
  pub suggestion : Option AgentSuggestion

pub record TraceEvent : Type 0 where
  pub event_name : String
  pub workspace_id : String
  pub project_id : Option String
  pub plan_id : Option String
  pub action_id : Option String
  pub message : String
