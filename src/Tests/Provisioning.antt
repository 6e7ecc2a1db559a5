-- ===== src/Tests/Provisioning.antt =====
-- A pointer to a payload, and the payload.
use prism_agent.Prelude.{◌≡◌, refl, true, false, Option, none, some, lookup}
use prism_agent.Prelude.Fallible.{ok}
use prism_agent.Domain.Json.{text, object, Fields, end, field, get, set}
use prism_agent.Domain.Policies.{evaluate, decision, kind_allows, trigger_key_for}
use prism_agent.Domain.Events.{wrap}
use prism_agent.Domain.Provisioning.{
  FeatureProvisioningPointerEvent, FeatureProvisioningPayload, is_specified, first_present,
  request_paths, workspace_paths, project_paths, validate_matches, worker_idempotency_key,
  to_domain_event,
}
use prism_agent.Domain.Provisioning.Matches.{IsNamed, validate_matches-ok}
use prism_agent.Infrastructure.Registries.{get_by_trigger}
use prism_agent.Infrastructure.StateStore.{
  check_idempotency_key, record_idempotency_key, append_trace_event,
}
use prism_agent.Application.Effects.{
  Outside, answered, return, fresh, wrapped, store, trace, pure, outside, of_fallible, ◌>>=◌,
}
use prism_agent.Application.Router.{route}
use prism_agent.Application.DomainHandler.{handle, handle_routed, ignore}
use prism_agent.Application.Provisioning.{
  FeatureProvisioningResult, handle_pointer, dispatch_seed, resolve_seed_event, skipped,
}
use prism_agent.Application.Provisioning.Redelivery.{handle_pointer-handle_pointer}
use prism_agent.Tests.Samples.{world, ready_runtime}

abbrev pointer : FeatureProvisioningPointerEvent
pointer = record {
  request_id = "q";
  agent_run_id = none;
  payload_id = none;
  payload_object_name = "o";
  payload_version_id = none;
  workspace_id = "w";
  project_id = "p";
  requested_by_user_id = none;
  requested_at = none;
}

abbrev content : Fields
content = field "requestId" (text "q") (
    field "workspaceId" (text "w") (
      field "project" (object (field "id" (text "p") end))
        (field "featureSpecification" (text "s") end)))

abbrev payload : FeatureProvisioningPayload
payload = record { dump = content; extra = end }

abbrev read_payload : Fields → Option FeatureProvisioningPayload
read_payload fields = some (record { dump = fields; extra = end })

abbrev payload_world : Outside
payload_world = record world { blob = λ calls call. answered content }

accepted : validate_matches world.strip world.str payload pointer ≡ ok tt
unfolding validate_matches first_present get
accepted = refl

validate_matches-ok_example :
    (is_specified world.strip world.str (get payload.dump "featureSpecification") ≡ true)
    × IsNamed world.strip world.str "q" (first_present payload request_paths)
    × IsNamed world.strip world.str "w" (first_present payload workspace_paths)
    × IsNamed world.strip world.str "p" (first_present payload project_paths)
validate_matches-ok_example = validate_matches-ok world.strip world.str payload pointer accepted

abbrev first_result : FeatureProvisioningResult
first_result = record { request_id = "q"; event_id = some "u"; duplicate = false }

returned : (handle_pointer payload_world read_payload pointer ready_runtime).0 ≡ return first_result
unfolding handle_pointer check_idempotency_key worker_idempotency_key dispatch_seed
    resolve_seed_event validate_matches first_present get set to_domain_event fresh wrapped wrap
    store record_idempotency_key handle route evaluate decision kind_allows trigger_key_for
    get_by_trigger lookup handle_routed ignore trace append_trace_event pure outside of_fallible
    ◌>>=◌
returned = refl

handle_pointer-handle_pointer_example :
    let s' = (handle_pointer payload_world read_payload pointer ready_runtime).1 in
    handle_pointer payload_world read_payload pointer s'
    ≡ (return (skipped payload_world read_payload pointer), s')
handle_pointer-handle_pointer_example =
    handle_pointer-handle_pointer payload_world read_payload pointer ready_runtime first_result
      returned
