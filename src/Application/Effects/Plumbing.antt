-- ===== src/Application/Effects/Plumbing.antt =====
-- Invariants that do not depend on the store, the queue, the identifiers drawn, and the calls of the
-- outside world that run no tool.
use prism_agent.Prelude.{ℕ, ◌+◌, String, ◌≡◌, Bool, true, false, [], ◌∷◌, ◌++◌, Option}
use prism_agent.Domain.Events.{RuntimeEvent, EventEnvelope}
use prism_agent.Infrastructure.Queue.{MemoryQueue}
use prism_agent.Infrastructure.StateStore.{MemoryStateStore}
use prism_agent.Application.Effects.{
  Outside, OutsideCall, run_tool, Runtime, store, enqueue_as, trace, fresh, enqueue, wrapped,
  report, modify, outside,
}
use prism_agent.Application.Effects.Keeps.{Keeps, Keeps-modify, Keeps-outside, keeps_rules}

abbrev pub is_tool : OutsideCall → Bool
is_tool (run_tool _ _) = true
is_tool _ = false

pub record Plumbing (P : Runtime → Type 0) : Type 0 where
  pub any_store : (s : Runtime) (x : MemoryStateStore) → P s → P (record s { store = x })
  pub any_queue : (s : Runtime) (x : MemoryQueue) → P s → P (record s { queue = x })
  pub any_drawn : (s : Runtime) (x : ℕ) → P s → P (record s { drawn = x })
  pub any_call :
      (s : Runtime) (call : OutsideCall)
      → is_tool call ≡ false
      → P s
      → P (record s { calls = s.calls ++ call ∷ [] })

module _ {P : Runtime → Type 0} (p : Plumbing P) where
  pub Keeps-store : (f : MemoryStateStore → MemoryStateStore) → Keeps P (store f)
  unfolding store
  Keeps-store f = Keeps-modify _ (λ s. p.any_store s (f s.store))

  pub Keeps-enqueue_as : (i : String) (e : EventEnvelope) → Keeps P (enqueue_as i e)
  unfolding enqueue_as
  Keeps-enqueue_as i e = Keeps-modify _ (λ s. p.any_queue s _)

  pub Keeps-trace :
      (event : RuntimeEvent) (name message : String) (plan_id action_id : Option String)
      → Keeps P (trace event name message plan_id action_id)
  unfolding trace
  Keeps-trace event name message plan_id action_id = Keeps-store _

  Keeps-draw : Keeps P (modify (λ s. record s { drawn = s.drawn + 1 }))
  Keeps-draw = Keeps-modify _ (λ s. p.any_drawn s _)

  pub Keeps-fresh : (world : Outside) → Keeps P (fresh world)
  unfolding fresh
  Keeps-fresh world = search (keeps_rules, Keeps-draw)

  pub Keeps-enqueue : (world : Outside) (e : EventEnvelope) → Keeps P (enqueue world e)
  unfolding enqueue
  Keeps-enqueue world e = search (keeps_rules, Keeps-fresh, Keeps-enqueue_as)

  pub Keeps-wrapped : (world : Outside) (e : RuntimeEvent) → Keeps P (wrapped world e)
  unfolding wrapped
  Keeps-wrapped world e = search (keeps_rules, Keeps-fresh)

  pub Keeps-call :
      {A : Type 0} (call : OutsideCall) (answer : _)
      → is_tool call ≡ false
      → Keeps P (outside {A = A} call answer)
  Keeps-call call answer quiet = Keeps-outside call answer (λ s. p.any_call s call quiet)

  pub Keeps-report :
      (world : Outside) (call : OutsideCall) → is_tool call ≡ false → Keeps P (report world call)
  unfolding report
  Keeps-report world call quiet = Keeps-call call _ quiet
