-- ===== src/Application/Runner.antt =====
-- src/application/recursion_runner.py: the loop that empties the queue. The handlers are operations that
-- the runner is given. `str.strip` is an operation of Python.
pub mod Calls
pub mod Ends
pub mod Handled
pub mod Identity
use prism_agent.Prelude.{
  ℕ, zero, suc, ◌+◌, String, Bool, true, false, ◌||◌, Option, none, some, List, [], ◌∷◌, elem,
  if◌then◌else◌, leb, ltb, ◌==◌,
}
use prism_agent.Domain.Json.{Json, text, object, Fields, get}
use prism_agent.Domain.Events.{
  RuntimeEvent, EventEnvelope, EventKind, agent_action, subagent_task, subagent_completed,
  option_or,
}
use prism_agent.Domain.AgentRun.{or_else}
use prism_agent.Infrastructure.Queue
use prism_agent.Infrastructure.Queue.{QueueMessage, MemoryQueue, dequeue, ack}
use prism_agent.Application.Effects.{
  Outside, Runtime, Action, Error, Result, return, raise, runtime_error, record_run_failed, pure,
  throw, modify, try_except, enqueue, wrapped, trace, report, ◌>>=◌, ◌>>◌,
}
use prism_agent.Application.ActionHandler.{error_text}

-- The handlers of the three families of events. There may be no coordinator.
pub record Handlers : Type 0 where
  pub on_action : EventEnvelope → Action (Unit {0})
  pub on_subagent : Option (EventEnvelope → Action (Unit {0}))
  pub on_domain : EventEnvelope → Action (Unit {0})

-- `has_sync` says whether there is an `AgentRunSync`.
pub record Config : Type 0 where
  pub max_recursion_depth : ℕ
  pub has_sync : Bool
  pub strip : String → String

-- The loop between two messages.
pub record Loop : Type 0 where
  pub runtime : Runtime
  pub seen_event_ids : List String
  pub processed : ℕ

pub data Step : Type 0 where
  finished : Step
  goes_on : Loop → Step
  stopped : Error → Loop → Step

pub data Exit : Type 0 where
  ended out_of_fuel : Exit
  raised : Error → Exit

-- What `run` is given: an event, or an envelope.
pub data Seed : Type 0 where
  seed_event : RuntimeEvent → Seed
  seed_envelope : EventEnvelope → Seed

unfoldable pub exceeds_max_depth : Config → EventEnvelope → ℕ → Bool
exceeds_max_depth config envelope processed =
    leb config.max_recursion_depth processed
    || ltb config.max_recursion_depth envelope.event.causality.depth

module _ (config : Config) where
  -- `value.strip()` for a text that is not blank.
  abbrev stripped : Option Json → Option String
  stripped (some (text t)) = if config.strip t == "" then none else some (config.strip t)
  stripped _ = none

  -- The first of some keys with a text that is not blank.
  unfoldable pub first_text : Fields → List String → Option String
  first_text fields [] = none
  first_text fields (key ∷ keys) = or_else (stripped (get fields key)) (first_text fields keys)

  abbrev run_keys : List String
  run_keys = "agentRunId" ∷ "runId" ∷ "agent_run_id" ∷ []

  abbrev pub pointer_text : Option Json → Option String
  pointer_text (some (object pointer)) = first_text pointer run_keys
  pointer_text _ = none

  -- The run that the payload or the identifiers of an event name.
  unfoldable pub named_run_id : RuntimeEvent → Option String
  named_run_id event = or_else (first_text event.payload run_keys) (
      or_else (pointer_text (get event.payload "queue_pointer"))
        (option_or event.correlation_id event.idempotency_key))

  abbrev pub run_id_for : EventKind → RuntimeEvent → Option String
  run_id_for (agent_action plan_id action_id) event = some plan_id
  run_id_for _ event = named_run_id event

  -- `_event_run_id`
  unfoldable pub event_run_id : RuntimeEvent → Option String
  event_run_id event = run_id_for event.kind event

-- What the loop does after a round.
abbrev pub resume : (Loop → Exit × Loop) → Loop → Step → Exit × Loop
resume again l finished = (ended, l)
resume again l (goes_on l') = again l'
resume again l (stopped e l') = (raised e, l')

module _ (world : Outside) (config : Config) (handlers : Handlers) where
  unfoldable pub on_queue : (MemoryQueue → MemoryQueue) → Action (Unit {0})
  on_queue f = modify (λ s. record s { queue = f s.queue })

  abbrev report_failure : RuntimeEvent → Bool → Option String → Action (Unit {0})
  report_failure event true (some run_id) =
      report world
        (record_run_failed event.workspace_id run_id "Stopped recursive processing at max depth.")
  report_failure event _ _ = pure tt

  unfoldable pub record_max_depth_failure : RuntimeEvent → Action (Unit {0})
  record_max_depth_failure event = do
    trace event "recursion.max_depth" "Stopped recursive processing at max depth." none none
    report_failure event config.has_sync (event_run_id config event)

  -- The messages past a limit.
  unfoldable pub refuse : QueueMessage → Action (Unit {0})
  refuse message = do
    on_queue (Queue.fail message "max_recursion_depth_exceeded")
    record_max_depth_failure message.envelope.event

  unfoldable pub skip_duplicate : QueueMessage → Action (Unit {0})
  skip_duplicate message = do
    on_queue (ack message)
    trace message.envelope.event "event.duplicate" "Skipped duplicate event." none none

  abbrev coordinate : Option (EventEnvelope → Action (Unit {0})) → EventEnvelope → Action (Unit {0})
  coordinate none envelope = throw (runtime_error "SubAgentCoordinator is not configured.")
  coordinate (some handle) envelope = handle envelope

  unfoldable pub dispatch : EventEnvelope → Action (Unit {0})
  dispatch envelope = elim envelope.event.kind [
    | agent_action _ _ ↦ handlers.on_action envelope
    | subagent_task _ _ ↦ coordinate handlers.on_subagent envelope
    | subagent_completed _ _ _ ↦ coordinate handlers.on_subagent envelope
    | _ ↦ handlers.on_domain envelope
  ]

  unfoldable pub attempt : QueueMessage → Action (Unit {0})
  attempt message =
      try_except (do dispatch message.envelope; on_queue (ack message))
        (λ exc. do
          on_queue (Queue.fail message (error_text exc))
          trace message.envelope.event "event.failed" (error_text exc) none none)

  abbrev pub after : Result (Unit {0}) × Runtime → List String → ℕ → Step
  after (return a, s) seen processed =
      goes_on record { runtime = s; seen_event_ids = seen; processed = processed }
  after (raise e, s) seen processed =
      stopped e record { runtime = s; seen_event_ids = seen; processed = processed }

  -- The body of the loop, for a message that left the queue.
  unfoldable pub take : QueueMessage → Runtime → List String → ℕ → Step
  take message s seen processed =
      if exceeds_max_depth config message.envelope processed
      then after (refuse message s) seen processed
      else if elem message.envelope.event.event_id seen
      then after (skip_duplicate message s) seen processed
      else after (attempt message s) (message.envelope.event.event_id ∷ seen) (suc processed)

  abbrev pub take_next : Option QueueMessage → Runtime → List String → ℕ → Step
  take_next none s seen processed = finished
  take_next (some message) s seen processed = take message s seen processed

  -- One round of `while not self.queue.is_empty()`.
  unfoldable pub step : Loop → Step
  step l =
      let (next, queue) = dequeue l.runtime.queue in
      take_next next (record l.runtime { queue = queue }) l.seen_event_ids l.processed

  unfoldable pub loop : ℕ → Loop → Exit × Loop
  loop zero l = (out_of_fuel, l)
  loop (suc fuel) l = resume (loop fuel) l (step l)

  -- `run` puts the seed in the queue, and starts to count.
  unfoldable pub seeded : Seed → Action (Unit {0})
  seeded (seed_event event) = do wrapper ← wrapped world event; enqueue world wrapper
  seeded (seed_envelope envelope) = enqueue world envelope

  unfoldable pub run : ℕ → Seed → Runtime → List String → Exit × Loop
  run fuel seed s seen =
      loop fuel record { runtime = (seeded seed s).1; seen_event_ids = seen; processed = 0 }
