-- ===== src/Domain/Actions.antt =====
-- src/domain/actions.py. The times of an action (`created_at`, `updated_at`) are left out.
use prism_agent.Prelude.{ℕ, String, Bool, true, false, Option, List, Dict, all, elem}
use prism_agent.Domain.Json.{Fields}

pub data ActionStatus : Type 0 where
  pending running completed failed skipped requires_approval stale : ActionStatus

abbrev pub status_eq : ActionStatus → ActionStatus → Bool
status_eq pending pending = true
status_eq running running = true
status_eq completed completed = true
status_eq failed failed = true
status_eq skipped skipped = true
status_eq requires_approval requires_approval = true
status_eq stale stale = true
status_eq _ _ = false

-- A version of an entity: `str | int`.
pub data Version : Type 0 where
  tag : String → Version
  revision : ℕ → Version

pub record WorkItemLeafDraft : Type 0 where
  pub title : String
  pub description : String
  pub start_date : Option String
  pub due_date : Option String
  pub priority : Option String
  pub status : Option String
  pub assignee_usernames : List String
  pub label_names : List String

pub record WorkItemChildDraft : Type 0 where
  pub leaf : WorkItemLeafDraft
  pub children : List WorkItemLeafDraft

pub record WorkItemDraft : Type 0 where
  pub leaf : WorkItemLeafDraft
  pub children : List WorkItemChildDraft

pub record WorkItemUpdateDraft : Type 0 where
  pub item_id : String
  pub title : Option String
  pub description : Option String
  pub priority : Option String
  pub status : Option String
  pub due_date : Option String
  pub assignee_usernames : List String
  pub label_names : List String

pub record PlannedAction : Type 0 where
  pub action_id : String
  pub plan_id : String
  pub action_type : String
  pub tool_name : String
  pub instruction : String
  pub input : Fields
  pub work_items : List WorkItemDraft
  pub work_item_updates : List WorkItemUpdateDraft
  pub target_item_ids : List String
  pub depends_on : List String
  pub requires_approval : Bool
  pub status : ActionStatus
  pub idempotency_key : String
  pub expected_entity_versions : Dict String Version

abbrev pub has_status : ActionStatus → PlannedAction → Bool
has_status s action = status_eq action.status s

unfoldable pub is_unblocked : PlannedAction → List String → Bool
is_unblocked action done = all (λ d. elem d done) action.depends_on

unfoldable pub with_status : PlannedAction → ActionStatus → PlannedAction
with_status action s = record action { status = s }
