-- ===== src/Application/Runner/Ends.antt =====
-- The loop of the runner ends: a round hands an event to a handler, or only takes a message from the
-- queue.
use prism_agent.Prelude.{
  ℕ, zero, suc, ◌+◌, ◌≤◌, ◌<◌, String, arith, ◌≡◌, ◌≢◌, ◌⊎◌, refl, Bool, true, false, Option, none,
  some, List, [], ◌∷◌, length, elem, Bool-cases, inl, inr,
}
use prism_agent.Domain.Events.{RuntimeEvent}
use prism_agent.Infrastructure.Queue
use prism_agent.Infrastructure.Queue.{QueueMessage, MemoryQueue, dequeue, ack, pop}
use prism_agent.Application.Effects.{
  Outside, OutsideCall, Runtime, Action, Error, Result, return, raise, store, report, outside,
  modify, ◌>>=◌, ◌>>◌,
}
use prism_agent.Application.Effects
use prism_agent.Application.Effects.Keeps.{Keeps, Keeps-modify, Keeps-outside, keeps_rules}
use prism_agent.Application.Runner.{
  Handlers, Config, Loop, Step, finished, goes_on, stopped, out_of_fuel, Seed, exceeds_max_depth,
  on_queue, report_failure, record_max_depth_failure, refuse, skip_duplicate, attempt, after, take,
  take_next, resume, step, loop, run,
}

-- The queued messages.
abbrev Waiting : List QueueMessage → Runtime → Type 0
Waiting l s = s.queue.messages ≡ l

module _ (l : List QueueMessage) (world : Outside) (config : Config) (handlers : Handlers) where
  trace-Waiting :
      (e : RuntimeEvent) (name message : String) (p a : Option String)
      → Keeps (Waiting l) (Effects.trace e name message p a)
  unfolding Effects.trace store
  trace-Waiting e name message p a = Keeps-modify _ (λ s h. h)

  report-Waiting : (call : OutsideCall) → Keeps (Waiting l) (report world call)
  unfolding report
  report-Waiting call = Keeps-outside call _ (λ s h. h)

  fail-Waiting :
      (m : QueueMessage) (t : String)
      → Keeps (Waiting l) (on_queue world config handlers (Queue.fail m t))
  unfolding on_queue Queue.fail
  fail-Waiting m t = Keeps-modify _ (λ s h. h)

  ack-Waiting : (m : QueueMessage) → Keeps (Waiting l) (on_queue world config handlers (ack m))
  unfolding on_queue ack
  ack-Waiting m = Keeps-modify _ (λ s h. h)

  report_failure-Waiting :
      (e : RuntimeEvent) (b : Bool) (o : Option String)
      → Keeps (Waiting l) (report_failure world config handlers e b o)
  report_failure-Waiting e true none = search (keeps_rules)
  report_failure-Waiting e true (some i) = report-Waiting _
  report_failure-Waiting e false none = search (keeps_rules)
  report_failure-Waiting e false (some i) = search (keeps_rules)

  refuse-Waiting : (m : QueueMessage) → Keeps (Waiting l) (refuse world config handlers m)
  unfolding refuse record_max_depth_failure
  refuse-Waiting m =
      search (keeps_rules, fail-Waiting, trace-Waiting, report_failure-Waiting) depth 16

  skip-Waiting : (m : QueueMessage) → Keeps (Waiting l) (skip_duplicate world config handlers m)
  unfolding skip_duplicate
  skip-Waiting m = search (keeps_rules, ack-Waiting, trace-Waiting) depth 16

-- How many messages wait.
abbrev pub waiting : Loop → ℕ
waiting l = length l.runtime.queue.messages

-- A round that hands an event to a handler: a new one, below the limit.
abbrev pub Handles : ℕ → Loop → Loop → Type 0
Handles limit l l' =
    (i : String) × (elem i l.seen_event_ids ≡ false)
    × (l'.seen_event_ids ≡ i ∷ l.seen_event_ids)
    × (l'.processed ≡ suc l.processed)
    × (l.processed < limit)

-- A round that only takes a message from the queue.
abbrev pub Drops : Loop → Loop → Type 0
Drops l l' =
    (l'.seen_event_ids ≡ l.seen_event_ids) × (l'.processed ≡ l.processed) × (waiting l' < waiting l)

abbrev pub Advances : ℕ → Loop → Step → Type 0
Advances limit l finished = Unit
Advances limit l (goes_on l') = Handles limit l l' ⊎ Drops l l'
Advances limit l (stopped e l') = Handles limit l l' ⊎ Drops l l'

below-limit :
    (config : Config) (m : QueueMessage) (n : ℕ)
    → exceeds_max_depth config m.envelope n ≡ false
    → n < config.max_recursion_depth
unfolding exceeds_max_depth
below-limit config m n h = grind arith

module _ (world : Outside) (config : Config) (handlers : Handlers) where
  abbrev limit : ℕ
  limit = config.max_recursion_depth

  after-Handles :
      (r : Result (Unit {0})) (s : Runtime) (i : String) (l : Loop)
      → elem i l.seen_event_ids ≡ false
      → l.processed < limit
      → Advances limit l
          (after world config handlers (r, s) (i ∷ l.seen_event_ids) (suc l.processed))
  after-Handles (return a) s i l new below = inl (i, new, refl, refl, below)
  after-Handles (raise e) s i l new below = inl (i, new, refl, refl, below)

  after-Drops :
      (r : Result (Unit {0})) (s : Runtime) (l : Loop)
      → length s.queue.messages < waiting l
      → Advances limit l (after world config handlers (r, s) l.seen_event_ids l.processed)
  after-Drops (return a) s l less = inr (refl, refl, less)
  after-Drops (raise e) s l less = inr (refl, refl, less)

  take-Advances :
      (m : QueueMessage) (s : Runtime) (l : Loop)
      → length s.queue.messages < waiting l
      → Advances limit l (take world config handlers m s l.seen_event_ids l.processed)
  unfolding take
  take-Advances m s l less = elim (Bool-cases (exceeds_max_depth config m.envelope l.processed)) [
    | inl over ↦
        let kept = (refuse-Waiting s.queue.messages world config handlers m).at s refl in
        rw over (after-Drops (refuse world config handlers m s).0 _ l (rw kept less))
    | inr under ↦ elim (Bool-cases (elem m.envelope.event.event_id l.seen_event_ids)) [
      | inl seen ↦
          let kept = (skip-Waiting s.queue.messages world config handlers m).at s refl in
          rw (under, seen)
            (after-Drops (skip_duplicate world config handlers m s).0 _ l (rw kept less))
      | inr new ↦
          rw (under, new)
            (after-Handles (attempt world config handlers m s).0
              (attempt world config handlers m s).1 m.envelope.event.event_id l new
              (below-limit config m l.processed under))
    ]
  ]

  popped-Advances :
      (messages : List QueueMessage) (queue : MemoryQueue) (l : Loop)
      → length messages ≤ waiting l
      → Advances limit l (
          take_next world config handlers
            (pop messages queue).0
            (record l.runtime { queue = (pop messages queue).1 })
            l.seen_event_ids
            l.processed)
  popped-Advances [] queue l less = tt
  popped-Advances (m ∷ messages) queue l less = take-Advances m _ l (omega (arith, less))

  pub step-Advances : (l : Loop) → Advances limit l (step world config handlers l)
  unfolding step dequeue
  step-Advances l = popped-Advances l.runtime.queue.messages l.runtime.queue l (omega arith)

  -- Some fuel with which the loop comes to its end.
  abbrev Stops : Loop → Type 0
  Stops l = (fuel : ℕ) × ((loop world config handlers fuel l).0 ≢ out_of_fuel)

  resume-Stops :
      (l : Loop) (next : Step)
      → Advances limit l next
      → ((l' : Loop) → Handles limit l l' ⊎ Drops l l' → Stops l')
      → (fuel : ℕ) × ((resume (loop world config handlers fuel) l next).0 ≢ out_of_fuel)
  resume-Stops l finished h again = (0, λ e. cc)
  resume-Stops l (goes_on l') h again = again l' h
  resume-Stops l (stopped e l') h again = (0, λ e. cc)

  round-Stops : (l : Loop) → ((l' : Loop) → Handles limit l l' ⊎ Drops l l' → Stops l') → Stops l
  unfolding loop
  round-Stops l again =
      let (fuel, ends) = resume-Stops l (step world config handlers l) (step-Advances l) again in
      (suc fuel, ends)

  -- With `left` handlers to run: the rounds that only drop messages come to an end.
  drain :
      (left : ℕ)
      → ((l l' : Loop) → limit ≤ l.processed + left → Handles limit l l' → Stops l')
      → (n : ℕ) (l : Loop) → limit ≤ l.processed + left
      → waiting l ≤ n
      → Stops l
  drain left handled zero l enough few = round-Stops l (λ l' h. elim h [
    | inl x ↦ handled l l' enough x
    | inr (_, _, less) ↦ absurd (omega (arith, less, few))
  ])
  drain left handled (suc n) l enough few = round-Stops l (λ l' h. elim h [
    | inl x ↦ handled l l' enough x
    | inr (_, same, less) ↦
        drain left handled n l' (omega (arith, enough, same)) (omega (arith, less, few))
  ])

  loop-Stops : (left : ℕ) (l : Loop) → limit ≤ l.processed + left → Stops l
  loop-Stops zero l enough =
      drain zero (λ l l' e h. absurd (omega (arith, e, h.4))) (waiting l) l enough (omega arith)
  loop-Stops (suc left) l enough =
      drain (suc left) (λ l l' e h. loop-Stops left l' (omega (arith, e, h.3))) (waiting l) l enough
        (omega arith)

  -- The loop of the runner comes to its end, by an empty queue or an exception, for every seed, state
  -- and limit, whatever the handlers and the outside world do.
  pub run-ends :
      (seed : Seed) (s : Runtime) (seen : List String)
      → (fuel : ℕ) × ((run world config handlers fuel seed s seen).0 ≢ out_of_fuel)
  unfolding run
  run-ends seed s seen = loop-Stops limit _ (omega arith)
