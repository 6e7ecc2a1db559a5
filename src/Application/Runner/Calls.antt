-- ===== src/Application/Runner/Calls.antt =====
-- The handlers that the loop calls, for handlers that keep a log of what they are given.
use prism_agent.Prelude.{
  ℕ, zero, suc, ◌+◌, String, arith, ◌≡◌, ◌∙◌, ◌⊎◌, refl, ap, Bool, true, false, Option, none, some,
  List, [], ◌∷◌, ◌++◌, length, elem, Bool-cases, inl, inr,
}
use prism_agent.Domain.Events.{
  RuntimeEvent, EventEnvelope, EventKind, domain, scheduled, manual, agent_action, subagent_task,
  subagent_completed,
}
use prism_agent.Domain.Results.{TraceEvent}
use prism_agent.Infrastructure.Queue
use prism_agent.Infrastructure.Queue.{QueueMessage, MemoryQueue, dequeue, ack, pop}
use prism_agent.Infrastructure.StateStore.{append_trace_event}
use prism_agent.Application.Effects
use prism_agent.Application.Effects.{
  Outside, Runtime, Action, Error, Result, return, raise, record_run_failed, store, report, outside,
  modify, try_except, enqueue, enqueue_as, wrapped, fresh, pure, ◌>>=◌, ◌>>◌,
}
use prism_agent.Application.Effects.Keeps.{
  Keeps, Keeps-modify, Keeps-outside, Keeps-result_or, Keeps-continue, keeps_rules,
}
use prism_agent.Application.ActionHandler.{error_text}
use prism_agent.Application.Runner.{
  Handlers, Config, Loop, Step, finished, goes_on, stopped, Seed, seed_event, seed_envelope,
  exceeds_max_depth, on_queue, report_failure, record_max_depth_failure, refuse, skip_duplicate,
  dispatch, attempt, after, take, take_next, resume, step, loop, seeded,
}

-- The log of the handlers is a part of the state that the runner itself leaves alone, and each handler
-- puts the event that it is given in front of it, once, also when it raises.
pub record IsLog (handlers : Handlers) (log : Runtime → List String) : Type 0 where
  pub queue : (s : Runtime) (q : MemoryQueue) → log (record s { queue = q }) ≡ log s
  pub drawn : (s : Runtime) (n : ℕ) → log (record s { drawn = n }) ≡ log s
  pub traced :
      (s : Runtime) (entry : TraceEvent)
      → log (record s { store = append_trace_event entry s.store }) ≡ log s
  pub reported :
      (s : Runtime) (workspace_id run_id message : String)
      → log (record s { calls = s.calls ++ record_run_failed workspace_id run_id message ∷ [] })
        ≡ log s
  pub on_action :
      (envelope : EventEnvelope) (s : Runtime)
      → log (handlers.on_action envelope s).1 ≡ envelope.event.event_id ∷ log s
  pub on_domain :
      (envelope : EventEnvelope) (s : Runtime)
      → log (handlers.on_domain envelope s).1 ≡ envelope.event.event_id ∷ log s
  pub coordinator : EventEnvelope → Action (Unit {0})
  pub has_coordinator : handlers.on_subagent ≡ some coordinator
  pub on_subagent :
      (envelope : EventEnvelope) (s : Runtime)
      → log (coordinator envelope s).1 ≡ envelope.event.event_id ∷ log s

module _ (world : Outside) (config : Config) (handlers : Handlers) (log : Runtime → List String)
    (is_log : IsLog handlers log) where
  abbrev Says : List String → Runtime → Type 0
  Says l s = log s ≡ l

  module _ (l : List String) where
    trace-Says :
        (e : RuntimeEvent) (name message : String) (p a : Option String)
        → Keeps (Says l) (Effects.trace e name message p a)
    unfolding Effects.trace store
    trace-Says e name message p a = Keeps-modify _ (λ s h. is_log.traced s _ ∙ h)

    on_queue-Says :
        (f : MemoryQueue → MemoryQueue) → Keeps (Says l) (on_queue world config handlers f)
    unfolding on_queue
    on_queue-Says f = Keeps-modify _ (λ s h. is_log.queue s _ ∙ h)

    report_failure-Says :
        (e : RuntimeEvent) (b : Bool) (o : Option String)
        → Keeps (Says l) (report_failure world config handlers e b o)
    unfolding report
    report_failure-Says e true none = search (keeps_rules)
    report_failure-Says e true (some i) = Keeps-outside _ _ (λ s h. is_log.reported s _ _ _ ∙ h)
    report_failure-Says e false none = search (keeps_rules)
    report_failure-Says e false (some i) = search (keeps_rules)

    refuse-Says : (m : QueueMessage) → Keeps (Says l) (refuse world config handlers m)
    unfolding refuse record_max_depth_failure
    refuse-Says m = search (keeps_rules, on_queue-Says, trace-Says, report_failure-Says) depth 16

    skip-Says : (m : QueueMessage) → Keeps (Says l) (skip_duplicate world config handlers m)
    unfolding skip_duplicate
    skip-Says m = search (keeps_rules, on_queue-Says, trace-Says) depth 16

    drawn-Says : Keeps (Says l) (modify (λ s. record s { drawn = s.drawn + 1 }))
    drawn-Says = Keeps-modify _ (λ s h. is_log.drawn s _ ∙ h)

    fresh-Says : Keeps (Says l) (fresh world)
    unfolding fresh
    fresh-Says = search (keeps_rules, drawn-Says) depth 16

    enqueue_as-Says :
        (message_id : String) (envelope : EventEnvelope)
        → Keeps (Says l) (enqueue_as message_id envelope)
    unfolding enqueue_as
    enqueue_as-Says message_id envelope = Keeps-modify _ (λ s h. is_log.queue s _ ∙ h)

    enqueue-Says : (envelope : EventEnvelope) → Keeps (Says l) (enqueue world envelope)
    unfolding enqueue
    enqueue-Says envelope = search (keeps_rules, fresh-Says, enqueue_as-Says) depth 16

    failed-Says :
        (m : QueueMessage) (exc : Error)
        → Keeps (Says l) (do
          on_queue world config handlers (Queue.fail m (error_text exc))
          Effects.trace m.envelope.event "event.failed" (error_text exc) none none)
    failed-Says m exc = search (keeps_rules, on_queue-Says, trace-Says) depth 16

    pub seeded-Says : (seed : Seed) → Keeps (Says l) (seeded world config handlers seed)
    unfolding seeded wrapped
    seeded-Says (seed_event event) = search (keeps_rules, fresh-Says, enqueue-Says) depth 16
    seeded-Says (seed_envelope envelope) = enqueue-Says envelope

  dispatch-Says :
      (envelope : EventEnvelope) (s : Runtime) (kind : EventKind)
      → envelope.event.kind ≡ kind
      → Says (envelope.event.event_id ∷ log s) (dispatch world config handlers envelope s).1
  unfolding dispatch
  dispatch-Says envelope s (agent_action p a) e = rw (e, dispatch) (is_log.on_action envelope s)
  dispatch-Says envelope s (subagent_task p n) e =
      rw (e, dispatch, is_log.has_coordinator) (is_log.on_subagent envelope s)
  dispatch-Says envelope s (subagent_completed p n t) e =
      rw (e, dispatch, is_log.has_coordinator) (is_log.on_subagent envelope s)
  dispatch-Says envelope s domain e = rw (e, dispatch) (is_log.on_domain envelope s)
  dispatch-Says envelope s (scheduled q) e = rw (e, dispatch) (is_log.on_domain envelope s)
  dispatch-Says envelope s (manual q) e = rw (e, dispatch) (is_log.on_domain envelope s)

  attempt-Says :
      (m : QueueMessage) (s : Runtime)
      → Says (m.envelope.event.event_id ∷ log s) (attempt world config handlers m s).1
  unfolding attempt try_except ◌>>=◌
  attempt-Says m s =
      let l = m.envelope.event.event_id ∷ log s in
      let (dispatched, s') = dispatch world config handlers m.envelope s in
      let acked = Keeps-continue dispatched _ (λ u. on_queue-Says l (ack m)) in
      (Keeps-result_or _ _ (failed-Says l m)).at _
        (acked.at s' (dispatch-Says m.envelope s m.envelope.event.kind refl))

  -- A round that gives one event to a handler, and one that gives none.
  abbrev Handed : Loop → Loop → Type 0
  Handed l l' =
      (i : String) × (l'.seen_event_ids ≡ i ∷ l.seen_event_ids)
      × (log l'.runtime ≡ i ∷ log l.runtime)
      × (l'.processed ≡ suc l.processed)

  abbrev Silent : Loop → Loop → Type 0
  Silent l l' =
      (l'.seen_event_ids ≡ l.seen_event_ids)
      × (log l'.runtime ≡ log l.runtime)
      × (l'.processed ≡ l.processed)

  abbrev Moves : Loop → Step → Type 0
  Moves l finished = Unit
  Moves l (goes_on l') = Handed l l' ⊎ Silent l l'
  Moves l (stopped e l') = Handed l l' ⊎ Silent l l'

  after-Handed :
      (r : Result (Unit {0})) (s : Runtime) (i : String) (l : Loop)
      → log s ≡ i ∷ log l.runtime
      → Moves l (after world config handlers (r, s) (i ∷ l.seen_event_ids) (suc l.processed))
  after-Handed (return a) s i l said = inl (i, refl, said, refl)
  after-Handed (raise e) s i l said = inl (i, refl, said, refl)

  after-Silent :
      (r : Result (Unit {0})) (s : Runtime) (l : Loop)
      → log s ≡ log l.runtime
      → Moves l (after world config handlers (r, s) l.seen_event_ids l.processed)
  after-Silent (return a) s l said = inr (refl, said, refl)
  after-Silent (raise e) s l said = inr (refl, said, refl)

  take-Moves :
      (m : QueueMessage) (s : Runtime) (l : Loop)
      → log s ≡ log l.runtime
      → Moves l (take world config handlers m s l.seen_event_ids l.processed)
  unfolding take
  take-Moves m s l same = elim (Bool-cases (exceeds_max_depth config m.envelope l.processed)) [
    | inl over ↦ rw over (
        after-Silent (refuse world config handlers m s).0 _ l
          ((refuse-Says (log l.runtime) m).at s same))
    | inr under ↦ elim (Bool-cases (elem m.envelope.event.event_id l.seen_event_ids)) [
      | inl seen ↦
          rw (under, seen)
            (after-Silent (skip_duplicate world config handlers m s).0 _ l
              ((skip-Says (log l.runtime) m).at s same))
      | inr new ↦
          rw (under, new)
            (after-Handed (attempt world config handlers m s).0
              (attempt world config handlers m s).1 m.envelope.event.event_id l
              (attempt-Says m s ∙ ap (λ x. m.envelope.event.event_id ∷ x) same))
    ]
  ]

  popped-Moves :
      (messages : List QueueMessage) (queue : MemoryQueue) (l : Loop)
      → Moves l (
          take_next world config handlers
            (pop messages queue).0
            (record l.runtime { queue = (pop messages queue).1 })
            l.seen_event_ids
            l.processed)
  popped-Moves [] queue l = tt
  popped-Moves (m ∷ messages) queue l = take-Moves m _ l (is_log.queue l.runtime _)

  step-Moves : (l : Loop) → Moves l (step world config handlers l)
  unfolding step dequeue
  step-Moves l = popped-Moves l.runtime.queue.messages l.runtime.queue l

  -- Between two moments of the loop: the handlers were given the events that became seen, in that order.
  abbrev pub Given : Loop → Loop → Type 0
  Given start l =
      (given : List String) × (l.seen_event_ids ≡ given ++ start.seen_event_ids)
      × (log l.runtime ≡ given ++ log start.runtime)
      × (l.processed ≡ length given + start.processed)

  Given-round : (start l l' : Loop) → Handed l l' ⊎ Silent l l' → Given start l → Given start l'
  Given-round start l l' (inl (i, seen, said, one)) (given, all_seen, all_said, count) = (
    i ∷ given,
    seen ∙ ap (λ x. i ∷ x) all_seen,
    said ∙ ap (λ x. i ∷ x) all_said,
    omega (arith, one, count),
  )
  Given-round start l l' (inr (seen, said, same)) (given, all_seen, all_said, count) =
      (given, seen ∙ all_seen, said ∙ all_said, same ∙ count)

  resume-Given :
      (fuel : ℕ) (start l : Loop) (next : Step)
      → Moves l next
      → Given start l
      → ((l' : Loop) → Given start l' → Given start (loop world config handlers fuel l').1)
      → Given start (resume (loop world config handlers fuel) l next).1
  resume-Given fuel start l finished a h again = h
  resume-Given fuel start l (goes_on l') a h again = again l' (Given-round start l l' a h)
  resume-Given fuel start l (stopped e l') a h again = Given-round start l l' a h

  pub loop-Given :
      (fuel : ℕ) (start l : Loop)
      → Given start l
      → Given start (loop world config handlers fuel l).1
  unfolding loop
  loop-Given zero start l h = h
  loop-Given (suc fuel) start l h =
      resume-Given fuel start l (step world config handlers l) (step-Moves l) h
        (loop-Given fuel start)
