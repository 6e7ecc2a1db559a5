-- ===== src/Application/Provisioning.antt =====
-- src/application/feature_provisioning_worker.py: a pointer starts one domain event. `parse` is the
-- validation of a payload by its model, `none` where it raises.
pub mod Redelivery
use prism_agent.Prelude.{String, Bool, true, false, Option, none, some, if◌then◌else◌}
use prism_agent.Domain.Json.{Json, text, Fields}
use prism_agent.Domain.Events.{RuntimeEvent, EventEnvelope}
use prism_agent.Domain.Provisioning.{
  FeatureProvisioningPointerEvent, FeatureProvisioningPayload, worker_idempotency_key,
  validate_matches, to_domain_event,
}
use prism_agent.Infrastructure.StateStore.{check_idempotency_key, record_idempotency_key}
use prism_agent.Application.Effects.{
  Outside, Action, fetch_json, validation_error, pure, throw, gets, outside, of_fallible, store,
  fresh, wrapped, ◌>>=◌, ◌>>◌,
}
use prism_agent.Application.DomainHandler

pub record FeatureProvisioningResult : Type 0 where
  pub request_id : String
  pub event_id : Option String
  pub duplicate : Bool

abbrev parsed : Option FeatureProvisioningPayload → Action FeatureProvisioningPayload
parsed none = throw validation_error
parsed (some payload) = pure payload

abbrev version_of : Option String → Option Json
version_of none = none
version_of (some t) = some (text t)

module _ (world : Outside) (parse : Fields → Option FeatureProvisioningPayload) where
  unfoldable pub resolve_seed_event : FeatureProvisioningPointerEvent → Action RuntimeEvent
  resolve_seed_event pointer = do
    let call = fetch_json (text pointer.payload_object_name) (version_of pointer.payload_version_id)
    fetched ← outside call (λ calls. world.blob calls call)
    payload ← parsed (parse fetched)
    of_fallible (validate_matches world.strip world.str payload pointer)
    event_id ← fresh world
    pure (to_domain_event payload pointer event_id)

  unfoldable pub dispatch_seed : FeatureProvisioningPointerEvent → Action FeatureProvisioningResult
  dispatch_seed pointer = do
    event ← resolve_seed_event pointer
    envelope ← wrapped world event
    DomainHandler.handle world envelope
    store (record_idempotency_key (worker_idempotency_key pointer))
    pure (record {
      request_id = pointer.request_id;
      event_id = some event.event_id;
      duplicate = false;
    })

  abbrev pub skipped : FeatureProvisioningPointerEvent → FeatureProvisioningResult
  skipped pointer = record { request_id = pointer.request_id; event_id = none; duplicate = true }

  -- `handle_pointer`, for a pointer that was validated and a store without keys for a workspace.
  unfoldable pub handle_pointer : FeatureProvisioningPointerEvent → Action FeatureProvisioningResult
  handle_pointer pointer = do
    known ← gets (λ s. check_idempotency_key s.store (worker_idempotency_key pointer))
    if known then pure (skipped pointer) else dispatch_seed pointer
