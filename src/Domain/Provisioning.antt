-- ===== src/Domain/Provisioning.antt =====
-- src/domain/feature_provisioning.py: a request to provision a feature points at its payload. The time
-- of a request is its text.
pub mod Matches
use prism_agent.Prelude.{
  String, Bool, true, false, not, ◌&&◌, ◌||◌, Option, none, some, List, [], ◌∷◌, ◌++◌, is_empty,
  is_some, if◌then◌else◌, ◌==◌,
}
use prism_agent.Prelude.Fallible.{Fallible, ok, invalid, ◌>>◌}
use Prim.Native.String.{◌++◌ as cat}
use prism_agent.Domain.Json.{
  Json, null, text, array, object, Items, nil, cons, Fields, end, field, get, set, is_true,
}
use prism_agent.Domain.Events.{RuntimeEvent, domain, root_causality, text_or}

pub record FeatureProvisioningPointerEvent : Type 0 where
  pub request_id : String
  pub agent_run_id : Option String
  pub payload_id : Option String
  pub payload_object_name : String
  pub payload_version_id : Option String
  pub workspace_id : String
  pub project_id : String
  pub requested_by_user_id : Option String
  pub requested_at : Option String

-- A payload that was validated: its `model_dump(by_alias=True, exclude_none=True)`, and its
-- `model_extra`, which also has the keys with `None`.
pub record FeatureProvisioningPayload : Type 0 where
  pub dump : Fields
  pub extra : Fields

abbrev pub pointer_type : String
pointer_type = "feature.provisioning.requested"

unfoldable pub worker_idempotency_key : FeatureProvisioningPointerEvent → String
worker_idempotency_key pointer = cat "feature_provisioning:" pointer.request_id

-- A key of the payload, or a key of one of its objects.
pub data FieldPath : Type 0 where
  at : String → FieldPath
  inside : String → String → FieldPath

abbrev object_at : Option Json → String → Option Json
object_at (some (object container)) key = get container key
object_at _ key = none

abbrev json_else : Option Json → Option Json → Option Json
json_else (some v) o = some v
json_else none o = o

-- `data.get(parent) or extra.get(parent)`
abbrev truthy_else : Option Json → Option Json → Option Json
truthy_else (some v) o = if is_true v then some v else o
truthy_else none o = o

abbrev pub present : FeatureProvisioningPayload → FieldPath → Option Json
present payload (at key) = json_else (get payload.dump key) (get payload.extra key)
present payload (inside parent child) =
    object_at (truthy_else (get payload.dump parent) (get payload.extra parent)) child

abbrev first_at : FeatureProvisioningPayload → List FieldPath → Option Json
first_at payload [] = none
first_at payload (path ∷ paths) = json_else (present payload path) (first_at payload paths)

abbrev not_null : Option Json → Option Json
not_null (some null) = none
not_null o = o

-- `_first_present`: a `None` that is found ends the search.
unfoldable pub first_present : FeatureProvisioningPayload → List FieldPath → Option Json
first_present payload paths = not_null (first_at payload paths)

abbrev pub request_paths : List FieldPath
request_paths = at "requestId" ∷ at "request_id" ∷ []

abbrev pub workspace_paths : List FieldPath
workspace_paths =
    at "workspaceId"
    ∷ at "workspace_id"
    ∷ inside "workspace" "workspaceId"
    ∷ inside "workspace" "id"
    ∷ []

abbrev pub project_paths : List FieldPath
project_paths =
    at "projectId" ∷ at "project_id" ∷ inside "project" "projectId" ∷ inside "project" "id" ∷ []

-- `strip` and `str` are Python's `str.strip` and `str` of a JSON value that is no text.
module _ (strip : String → String) (str : Json → String) where
  abbrev pub str_of : Json → String
  str_of (text t) = t
  str_of v = str v

  abbrev pub is_specified : Option Json → Bool
  is_specified (some (text t)) = not (strip t == "")
  is_specified _ = false

  abbrev pub name_if : Bool → String → List String
  name_if b name = if b then name ∷ [] else []

  abbrev pub missing_names : FeatureProvisioningPayload → List String
  missing_names payload =
      name_if (not (is_some (first_present payload project_paths))) "projectId"
      ++ name_if (not (is_some (first_present payload request_paths))) "requestId"
      ++ name_if (not (is_some (first_present payload workspace_paths))) "workspaceId"

  abbrev names_json : List String → Items
  names_json [] = nil
  names_json (name ∷ names) = cons (text name) (names_json names)

  -- The entry of a field in `mismatches`, if its two values differ.
  abbrev pub note_mismatch : String → String → Option Json → Fields → Fields
  note_mismatch name expected none rest = rest
  note_mismatch name expected (some actual) rest =
      if str_of actual == expected
      then rest
      else field name (object (field "pointer" (text expected) (field "payload" actual end))) rest

  abbrev pub mismatches : FeatureProvisioningPointerEvent → FeatureProvisioningPayload → Fields
  mismatches pointer payload =
      note_mismatch "requestId" pointer.request_id (first_present payload request_paths) (
        note_mismatch "workspaceId" pointer.workspace_id (first_present payload workspace_paths)
          (note_mismatch "projectId" pointer.project_id (first_present payload project_paths) end))

  abbrev pub check_missing : FeatureProvisioningPayload → Fallible (Unit {0})
  check_missing payload =
      if is_empty (missing_names payload)
      then ok tt
      else invalid (
          cat "Feature provisioning payload missing identity fields: "
            (str (array (names_json (missing_names payload)))))

  abbrev pub check_matches : Fields → Fallible (Unit {0})
  check_matches end = ok tt
  check_matches (field k v rest) =
      invalid (
        cat "Feature provisioning payload does not match pointer: " (str (object (field k v rest))))

  unfoldable pub validate_matches :
      FeatureProvisioningPayload → FeatureProvisioningPointerEvent → Fallible (Unit {0})
  validate_matches payload pointer =
      if is_specified (get payload.dump "featureSpecification")
      then check_missing payload >> check_matches (mismatches pointer payload)
      else invalid "Feature provisioning payload missing featureSpecification."

abbrev field_if : String → Option String → Fields → Fields
field_if key none rest = rest
field_if key (some t) rest = field key (text t) rest

-- `pointer.model_dump(by_alias=True, exclude_none=True)`
unfoldable pub pointer_json : FeatureProvisioningPointerEvent → Fields
pointer_json pointer = field "type" (text pointer_type) (
    field "version" (text "1.0") (
      field "requestId" (text pointer.request_id) (
        field_if "agentRunId" pointer.agent_run_id (
          field_if "payloadId" pointer.payload_id (
            field "payloadObjectName" (text pointer.payload_object_name) (
              field_if "payloadVersionId" pointer.payload_version_id (
                field "workspaceId" (text pointer.workspace_id) (
                  field "projectId" (text pointer.project_id) (
                    field_if "requestedByUserId" pointer.requested_by_user_id
                      (field_if "requestedAt" pointer.requested_at end))))))))))

abbrev set_from : String → Option Json → Fields → Fields
set_from key none payload = payload
set_from key (some v) payload = set payload key v

abbrev run_of : Option String → Fields → Fields
run_of none payload = payload
run_of (some run_id) payload =
    if run_id == "" then payload else set payload "agentRunId" (text run_id)

-- `to_domain_event`. A payload that was validated has both keys.
unfoldable pub to_domain_event :
    FeatureProvisioningPayload
    → FeatureProvisioningPointerEvent
    → (event_id : String) → RuntimeEvent
to_domain_event payload pointer event_id = record {
  kind = domain;
  event_id = event_id;
  event_type = pointer_type;
  workspace_id = pointer.workspace_id;
  project_id = some pointer.project_id;
  payload = run_of pointer.agent_run_id (
      set
        (set_from "workspace_members" (get payload.dump "workspaceMembers")
          (set_from "feature_specification" (get payload.dump "featureSpecification") payload.dump))
        "queue_pointer" (object (pointer_json pointer)));
  correlation_id = some pointer.request_id;
  causality = root_causality;
  idempotency_key = some pointer.request_id;
}
