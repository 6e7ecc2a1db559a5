-- ===== src/Tests/Runner.antt =====
-- The runner with the modelled handlers, on the plan of two actions.
use prism_agent.Prelude.{ℕ, ◌≤◌, ◌≡◌, ◌≢◌, String, List, ◌++◌, refl, true, some, [], ◌∷◌, length}
use prism_agent.Domain.Events.{EventEnvelope}
use prism_agent.Infrastructure.StateStore.{MemoryStateStore, append_trace_event}
use prism_agent.Application.Effects.{Runtime, Action, return, raise, runtime_error, pure, ◌>>◌}
use prism_agent.Application.Runner.Calls.{IsLog}
use prism_agent.Application.ActionHandler
use prism_agent.Application.Coordinator
use prism_agent.Application.DomainHandler
use prism_agent.Application.Runner.{Handlers, Config, seed_envelope, out_of_fuel, run}
use prism_agent.Application.Runner.Ends.{run-ends}
use prism_agent.Application.Runner.Handled.{Distinct, run-processed}
use prism_agent.Tests.Samples.{world, request, ready_runtime}

-- A new action handler has fuel enough (`handle-ne-out_of_fuel`).
abbrev handlers : Handlers
handlers = record {
  on_action = λ envelope. ActionHandler.handle 9 world envelope >> pure tt;
  on_subagent = some (Coordinator.handle world);
  on_domain = DomainHandler.handle world;
}

abbrev config : Config
config = record { max_recursion_depth = 25; has_sync = true; strip = λ t. t }

run-ends_example :
    (fuel : ℕ) × ((run world config handlers fuel (seed_envelope request) ready_runtime []).0
      ≢ out_of_fuel)
run-ends_example = run-ends world config handlers (seed_envelope request) ready_runtime []

-- Handlers that note the text of their event in the store.
abbrev noted : EventEnvelope → MemoryStateStore → MemoryStateStore
noted envelope s = record s { idempotency_keys = envelope.event.event_id ∷ s.idempotency_keys }

abbrev note : EventEnvelope → Action (Unit {0})
note envelope s = (return tt, record s { store = noted envelope s.store })

abbrev note_and_fail : EventEnvelope → Action (Unit {0})
note_and_fail envelope s =
    (raise (runtime_error "down"), record s { store = noted envelope s.store })

abbrev noting : Handlers
noting = record { on_action = note; on_subagent = some note_and_fail; on_domain = note }

abbrev notes : Runtime → List String
notes s = s.store.idempotency_keys

noting-IsLog : IsLog noting notes
unfolding append_trace_event
noting-IsLog = record {
  queue = λ s q. refl;
  drawn = λ s n. refl;
  traced = λ s entry. refl;
  reported = λ s w r m. refl;
  on_action = λ e s. refl;
  on_domain = λ e s. refl;
  coordinator = note_and_fail;
  has_coordinator = refl;
  on_subagent = λ e s. refl;
}

run-processed_example :
    let l = (run world config noting 30 (seed_envelope request) ready_runtime ("t" ∷ [])).1 in
    (given : List String) × (notes l.runtime ≡ given ++ notes ready_runtime)
    × (l.seen_event_ids ≡ given ++ ("t" ∷ []))
    × Distinct (given ++ ("t" ∷ []))
    × (l.processed ≡ length given)
    × (length given ≤ config.max_recursion_depth)
run-processed_example =
    run-processed world config noting notes noting-IsLog 30 (seed_envelope request) ready_runtime
      ("t" ∷ []) (refl, tt)
