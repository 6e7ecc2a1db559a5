-- ===== src/Domain/Events.antt =====
-- src/domain/events.py. The times of an event (`occurred_at`, `received_at`) are left out: nothing
-- modelled reads them. An identifier drawn by `uuid4` is an argument of the code that draws it.
use prism_agent.Prelude.{
  ℕ, ◌+◌, String, Option, none, some, List, [], ◌∷◌, ◌++◌, if◌then◌else◌, ◌==◌,
}
use prism_agent.Domain.Json.{Fields}

pub record EventCausality : Type 0 where
  pub root_event_id : Option String
  pub parent_event_id : Option String
  pub depth : ℕ
  pub chain : List String

abbrev pub root_causality : EventCausality
root_causality = record { root_event_id = none; parent_event_id = none; depth = 0; chain = [] }

-- `a or b` for an optional text and a text: the empty text counts as absent.
abbrev pub text_or : Option String → String → String
text_or none b = b
text_or (some a) b = if a == "" then b else a

-- `a or b` for two optional texts.
abbrev pub option_or : Option String → Option String → Option String
option_or none b = b
option_or (some a) b = if a == "" then b else some a

unfoldable pub child : EventCausality → String → EventCausality
child c parent = record {
  root_event_id = some (text_or c.root_event_id parent);
  parent_event_id = some parent;
  depth = c.depth + 1;
  chain = c.chain ++ parent ∷ [];
}

-- The event classes, each with the fields that it adds to `BaseRuntimeEvent`.
pub data EventKind : Type 0 where
  domain : EventKind
  scheduled : (schedule_id : Option String) → EventKind
  manual : (actor_id : Option String) → EventKind
  agent_action : (plan_id action_id : String) → EventKind
  subagent_task : (plan_id node_id : String) → EventKind
  subagent_completed : (plan_id node_id status : String) → EventKind

pub record RuntimeEvent : Type 0 where
  pub kind : EventKind
  pub event_id : String
  pub event_type : String
  pub workspace_id : String
  pub project_id : Option String
  pub payload : Fields
  pub correlation_id : Option String
  pub causality : EventCausality
  pub idempotency_key : Option String

pub record EventEnvelope : Type 0 where
  pub envelope_id : String
  pub event : RuntimeEvent
  pub attempt : ℕ

-- `EventEnvelope.wrap(event)`
unfoldable pub wrap : String → RuntimeEvent → EventEnvelope
wrap fresh_id event = record { envelope_id = fresh_id; event = event; attempt = 0 }
