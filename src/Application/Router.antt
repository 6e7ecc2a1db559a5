-- ===== src/Application/Router.antt =====
-- src/application/event_router.py and trigger_policy.py: the workflow that an event starts.
use prism_agent.Prelude.{Option, none, if◌then◌else◌}
use prism_agent.Domain.Events.{EventEnvelope}
use prism_agent.Domain.Policies.{TriggerPolicyDecision, evaluate}
use prism_agent.Infrastructure.Registries.{WorkflowDefinition, WorkflowRegistry, get_by_trigger}

pub record RouteResult : Type 0 where
  pub decision : TriggerPolicyDecision
  pub workflow : Option WorkflowDefinition

unfoldable pub route : WorkflowRegistry → EventEnvelope → RouteResult
route registry envelope =
    let decision = evaluate envelope.event in
    record {
      decision = decision;
      workflow = (if decision.allowed then get_by_trigger registry decision.trigger_key else none);
    }
