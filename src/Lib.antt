-- ===== src/Lib.antt =====
-- prism-agent: the recursive, event-driven project manager runtime, modelled and verified.
--
-- The program. A domain event is routed to a workflow; a plan of actions is made; the action handler
-- runs one action at a time, with a validator before and after the tool; larger workflows are task
-- graphs of subagent nodes, each with a sub-plan. Handlers share a state store and a queue.
--
-- The parts, and where they are modelled (source paths from the repository's root):
-- - src/domain/subtasks.py: Domain.Subtasks. `plan_advance` is split along its early returns into
--   `advance_from`, `record_status`, `after_completion` and `finish`.
-- - src/domain/actions.py, plans.py, events.py, policies.py, context.py, results.py, suggestions.py:
--   Domain.Actions, Domain.Plans, Domain.Events, Domain.Policies, Domain.Results. JSON values of
--   `dict[str, Any]` fields are Domain.Json.
-- - src/infrastructure/queue/memory_queue.py and state/memory_state_store.py: Infrastructure.Queue and
--   Infrastructure.StateStore. A Python dict is an association list in insertion order.
-- - src/application/validator.py, executor.py and action_event_handler.py: Application.Validator and
--   Application.ActionHandler. `handle` is a chain of rounds, `handle_once`, since the source calls
--   itself only as its last act; each branch of the source is a function. Application.Effects is the
--   state that the handlers share and the monad that they run in: state survives an exception.
-- - src/capabilities/definitions.py and src/infrastructure/registries: Capabilities.Definitions and
--   Infrastructure.Registries. A prompt registry is what the prompt files give.
-- - src/application/orchestrator.py and planner.py: Application.Orchestrator and Application.Planner.
--   The planning agent that answers a plan is the outside world.
-- - src/application/event_router.py, context_provider.py and domain_event_handler.py:
--   Application.Router, Application.ContextProvider and Application.DomainHandler. Graphs is the
--   first dispatch of an orchestrated run, Starts the planning of any other run.
-- - src/domain/backlog.py: Domain.Backlog, the findings about a backlog.
-- - src/domain/feature_provisioning.py and src/application/feature_provisioning_worker.py:
--   Domain.Provisioning and Application.Provisioning. A pointer starts one domain event.
-- - src/domain/agent_run.py and src/application/agent_run_sync.py: Domain.AgentRun and
--   Application.RunSync. The handlers report by outside calls, one for each method of AgentRunSync;
--   RunSync says which requests such a method makes of the Prism API.
-- - src/application/subagent_coordinator.py and subagent_runner.py: Application.Coordinator. Tasks is
--   the handling of a task event, Joins that of a completion; both run in the monad of Effects.
-- - src/application/recursion_runner.py: Application.Runner. `run` is `seeded` and `loop`, a round of
--   the loop is `step`; the traces that `run` returns are those of the store that it ends with. The
--   handlers of the three families of events are parameters, which those of ActionHandler,
--   Coordinator and DomainHandler fit.
--
-- Bounds and fuel. `handle` takes fuel for its recursive calls; nine suffice for a new handler,
-- and `rounds_left` says what suffices for any state. The loop of the runner takes fuel too: what
-- it needs depends on what the handlers enqueue, and is found by counting down the handler calls
-- left below the limit and then the messages. All other recursion is structural. Python integers
-- that occur here (depths, attempts, counters) are never negative and unbounded, as ℕ is.
--
-- Outside the model. The tools, the planning agent, the Prism API, the object storage and the
-- reports of AgentRunSync are an `Outside` record: functions of the calls made so far, which may
-- answer anything or raise; no theorem assumes more of them than it states. `uuid4` is a function
-- of the number of draws. Of the operations of Python on texts, `s[:n]` is a definition and the
-- others are parameters. Times, identifiers of trace entries and the diagnostic `data` of a trace
-- entry are left out, since nothing modelled reads them. Code with no model: the reading of the
-- prompt files, the tools, the checks of the quality of a plan, the durable store and the keys of a
-- workspace that only it has, the adapters and the wiring.
pub mod Prelude
pub mod Domain
pub mod Capabilities
pub mod Infrastructure
pub mod Application
mod Tests
