-- ===== src/Tests/Reports.antt =====
-- The identity of a run and what is reported of it.
use prism_agent.Prelude.{◌≡◌, refl, true, none, some, List, All}
use prism_agent.Prelude.Fallible.{ok}
use prism_agent.Domain.Json
use prism_agent.Domain.Events.{RuntimeEvent, domain}
use prism_agent.Domain.AgentRun.{Texts, resolve_agent_run_id}
use prism_agent.Application.Runner.{Config, event_run_id, named_run_id, first_text}
use prism_agent.Application.Runner.Identity.{event_run_id-resolve_agent_run_id}
use prism_agent.Application.RunSync.{
  Request, record_run_started, record_plan_created, record_run_failed, action_requests,
  record_action_state,
}
use prism_agent.Application.RunSync.Statuses.{
  IsFor, statuses, sent, run_of, record_action_state-statuses,
}
use prism_agent.Application.RunSync.Limits.{IsBounded, requests-IsBounded}
use prism_agent.Tests.Samples.{plan, first_action, context, event}

abbrev config : Config
config = record { max_recursion_depth = 25; has_sync = true; strip = λ t. t }

abbrev correlated : RuntimeEvent
correlated = record (event domain "epic.created") { correlation_id = some "r" }

correlated-named : event_run_id config correlated ≡ some "r"
unfolding event_run_id named_run_id first_text Json.get
correlated-named = refl

event_run_id-resolve_agent_run_id_example : resolve_agent_run_id config.strip correlated ≡ "r"
event_run_id-resolve_agent_run_id_example =
    event_run_id-resolve_agent_run_id config correlated "r" refl correlated-named refl

abbrev texts : Texts
texts = record {
  strip = λ t. t;
  squeeze = λ t. t;
  split_colon = λ t. none;
  uuid_string = λ t. none;
  uuid5 = λ t. t;
}

record_action_state-statuses_example :
    (requests : List Request) × (record_action_state texts plan first_action "action.started"
        (some "started")
      ≡ ok requests)
    × All (IsFor (run_of plan)) requests
    × (statuses requests ≡ sent plan)
record_action_state-statuses_example =
    record_action_state-statuses texts plan first_action "action.started" (some "started") refl

requests-IsBounded_example :
    All IsBounded (record_run_started texts context "run" "goal" "1")
    × All IsBounded (record_plan_created texts plan)
    × All IsBounded (record_run_failed texts "w" "run" "down")
    × All IsBounded (action_requests texts plan first_action "action.started" (some "started") 1)
requests-IsBounded_example =
    requests-IsBounded texts context "run" "goal" "1" "w" "down" "action.started" plan first_action
      (some "started") 1
