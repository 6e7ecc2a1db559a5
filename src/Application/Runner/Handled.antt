-- ===== src/Application/Runner/Handled.antt =====
-- The runner hands each event to a handler at most once, and no more events than its limit.
use prism_agent.Prelude.{
  ℕ, zero, suc, ◌+◌, ◌≤◌, String, arith, ◌≡◌, ◌⊎◌, ap, refl, ◌∙◌, ◌++◌, false, List, [], ◌∷◌,
  length, elem, inl, inr,
}
use mathlib.Core.Path.{subst}
use prism_agent.Application.Effects.{Outside, Runtime}
use prism_agent.Application.Runner.{
  Handlers, Config, Loop, Step, finished, goes_on, stopped, Seed, resume, step, loop, seeded, run,
}
use prism_agent.Application.Runner.Calls.{IsLog, loop-Given, seeded-Says}
use prism_agent.Application.Runner.Ends.{Handles, Drops, Advances, step-Advances}

-- No name stands in the list twice.
abbrev pub Distinct : List String → Type 0
Distinct [] = Unit
Distinct (i ∷ l) = (elem i l ≡ false) × Distinct l

-- Between two moments of the loop: the identifiers that were seen are distinct, one more for each event
-- that was handled, and at most `limit` events were handled.
abbrev Counted : ℕ → Loop → Loop → Type 0
Counted limit start l =
    Distinct l.seen_event_ids
    × (length l.seen_event_ids + start.processed ≡ length start.seen_event_ids + l.processed)
    × (l.processed ≤ limit)

Counted-round :
    (limit : ℕ) (start l l' : Loop)
    → Handles limit l l' ⊎ Drops l l'
    → Counted limit start l
    → Counted limit start l'
Counted-round limit start l l' (inl (i, new, seen, one, below)) (distinct, count, bound) =
    (rw seen (new, distinct), omega (arith, ap length seen, one, count), omega (arith, one, below))
Counted-round limit start l l' (inr (seen, same, _)) (distinct, count, bound) =
    (rw seen distinct, omega (arith, ap length seen, same, count), omega (arith, same, bound))

module _ (world : Outside) (config : Config) (handlers : Handlers) where
  abbrev limit : ℕ
  limit = config.max_recursion_depth

  resume-Counted :
      (fuel : ℕ) (start l : Loop) (next : Step)
      → Advances limit l next
      → Counted limit start l
      → ((l' : Loop)
          → Counted limit start l'
          → Counted limit start (loop world config handlers fuel l').1)
      → Counted limit start (resume (loop world config handlers fuel) l next).1
  resume-Counted fuel start l finished a h again = h
  resume-Counted fuel start l (goes_on l') a h again = again l' (Counted-round limit start l l' a h)
  resume-Counted fuel start l (stopped e l') a h again = Counted-round limit start l l' a h

  loop-Counted :
      (fuel : ℕ) (start l : Loop)
      → Counted limit start l
      → Counted limit start (loop world config handlers fuel l).1
  unfolding loop
  loop-Counted zero start l h = h
  loop-Counted (suc fuel) start l h =
      resume-Counted fuel start l (step world config handlers l)
        (step-Advances world config handlers l) h (loop-Counted fuel start)

  run-Counted :
      (fuel : ℕ) (seed : Seed) (s : Runtime) (seen : List String)
      → Distinct seen
      → let l = (run world config handlers fuel seed s seen).1 in
        Distinct l.seen_event_ids × (l.processed ≤ config.max_recursion_depth)
  unfolding run
  run-Counted fuel seed s seen distinct =
      let start : Loop = record {
        runtime = (seeded world config handlers seed s).1;
        seen_event_ids = seen;
        processed = 0;
      } in
      let (d, count, bound) = loop-Counted fuel start start (distinct, omega arith, omega arith) in
      (d, bound)

  run-Given :
      (log : Runtime → List String) (is_log : IsLog handlers log) (fuel : ℕ) (seed : Seed)
      (s : Runtime) (seen : List String)
      → let l = (run world config handlers fuel seed s seen).1 in
        (given : List String) × (l.seen_event_ids ≡ given ++ seen)
        × (log l.runtime ≡ given ++ log s)
        × (l.processed ≡ length given)
  unfolding run
  run-Given log is_log fuel seed s seen =
      let start : Loop = record {
        runtime = (seeded world config handlers seed s).1;
        seen_event_ids = seen;
        processed = 0;
      } in
      let (given, all_seen, all_said, count) =
        loop-Given world config handlers log is_log fuel start start
          ([], refl, refl, omega arith) in
      let seeding = (seeded-Says world config handlers log is_log (log s) seed).at s refl in
      (given, all_seen, all_said ∙ ap (λ l. given ++ l) seeding, omega (arith, count))

  -- For handlers that keep a log of the events that they are given, which the runner itself leaves
  -- alone: in one run, whatever the seed, the state, the fuel and the outside world, the handlers are
  -- given exactly the events that become seen, once each and in that order. From distinct seen
  -- identifiers, these are different from each other and from all that were seen before, and they are
  -- no more than the limit.
  pub run-processed :
      (log : Runtime → List String) (is_log : IsLog handlers log) (fuel : ℕ) (seed : Seed)
      (s : Runtime) (seen : List String)
      → Distinct seen
      → let l = (run world config handlers fuel seed s seen).1 in
        (given : List String) × (log l.runtime ≡ given ++ log s)
        × (l.seen_event_ids ≡ given ++ seen)
        × Distinct (given ++ seen)
        × (l.processed ≡ length given)
        × (length given ≤ config.max_recursion_depth)
  run-processed log is_log fuel seed s seen distinct =
      let (given, all_seen, all_said, count) = run-Given log is_log fuel seed s seen in
      let (different, bound) = run-Counted fuel seed s seen distinct in
      (
        given,
        all_said,
        all_seen,
        subst Distinct all_seen different,
        count,
        omega (arith, count, bound),
      )
