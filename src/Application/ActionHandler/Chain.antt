-- ===== src/Application/ActionHandler/Chain.antt =====
-- The chain of rounds inside one invocation: it ends, and it runs a bounded number of tools.
use prism_agent.Prelude.{
  ℕ, zero, suc, ◌<◌, ◌≤◌, ◌+◌, ◌-◌, ◌≡◌, ◌≢◌, refl, ap, [], ◌∷◌, length, length-append, Option,
  none, some, inl, inr, arith,
}
use prism_agent.Domain.Events.{EventEnvelope, RuntimeEvent}
use prism_agent.Domain.Actions.{PlannedAction}
use prism_agent.Domain.Plans.{AgentPlan}
use prism_agent.Domain.Results.{AgentContext}
use prism_agent.Application.Effects.{Outside, Runtime, Result, return, raise, ◌>>=◌, continue}
use prism_agent.Application.Effects.Keeps.{
  Keeps, Keeps-bind, Keeps-pure, Keeps-throw, Keeps-if, Keeps-try_except, Keeps-outside,
}
use prism_agent.Application.Effects.Hoare.{
  After, Hoare, Hoare-modify, Hoare-of_Keeps, Hoare-then, Hoare-bind, Hoare-pure,
}
use prism_agent.Application.Effects.Plumbing.{Plumbing, Keeps-trace, Keeps-wrapped}
use prism_agent.Application.ActionHandler.Settle.{chain_next, inline_action_chain_budget}
use prism_agent.Application.ActionHandler.Branches.{
  handle_once, tool_outcome, execute_one, out_of_fuel, follow, handle,
}
use prism_agent.Application.ActionHandler.Rounds.{Chains}
use prism_agent.Application.ActionHandler.Picks.{Round, round_rule}
use prism_agent.Application.ActionHandler.Guards.{tool_runs, handle_once-RanCleared}

abbrev Used : ℕ → Runtime → Type 0
Used u s = s.inline_actions_used ≡ u

Used-Plumbing : (u : ℕ) → Plumbing (Used u)
Used-Plumbing u = record {
  any_store = λ s x h. h;
  any_queue = λ s x h. h;
  any_drawn = λ s x h. h;
  any_call = λ s call quiet h. h;
}

-- A round that goes on has taken one of the inline actions that were left.
abbrev Took : ℕ → Option EventEnvelope → Runtime → Type 0
Took u none s = Unit
Took u (some e) s = (s.inline_actions_used ≡ u + 1) × (u < inline_action_chain_budget)

abbrev Anything : Runtime → Type 0
Anything s = Unit

abbrev Counted : ℕ → Runtime → Type 0
Counted u s = (s.inline_actions_used ≡ u + 1) × (u < inline_action_chain_budget)

Counted-Plumbing : (u : ℕ) → Plumbing (Counted u)
Counted-Plumbing u = record {
  any_store = λ s x h. h;
  any_queue = λ s x h. h;
  any_drawn = λ s x h. h;
  any_call = λ s call quiet h. h;
}

module _ (world : Outside) (u : ℕ) where
  chain-Took :
      (plan : AgentPlan) (a : PlannedAction) (event : RuntimeEvent)
      → Hoare
          (λ s. Used u s × (s.inline_actions_used < inline_action_chain_budget))
          (chain_next world plan a event)
          (Took u)
          Anything
  unfolding chain_next
  chain-Took plan a event =
      Hoare-bind (λ _. Counted u) _ _ (Hoare-modify _ (λ s h. omega (arith, h.0, h.1)))
        λ _.
          Hoare-then _ _ (Keeps-trace (Counted-Plumbing u) event _ _ _ _) (λ s h. tt)
            λ _.
              Hoare-then _ _ (Keeps-wrapped (Counted-Plumbing u) world event) (λ s h. tt)
                λ w. Hoare-pure (some w) (λ s h. h)

  chains-Took : Chains world (Used u) (Took u) Anything
  chains-Took = record {
    plumbing = Used-Plumbing u;
    stops = λ s h. tt;
    fails = λ s h. tt;
    chains = chain-Took;
  }

  tool-Used :
      (envelope : EventEnvelope) (plan : AgentPlan) (action : PlannedAction)
      (context : AgentContext)
      → Keeps (Used u) (tool_outcome world envelope plan action context)
  unfolding tool_outcome execute_one
  tool-Used envelope plan action context =
      Keeps-try_except _ _
        (Keeps-bind _ _
          (Keeps-if (world.has_tool action.tool_name) _ _ (Keeps-outside _ _ (λ s h. h))
            (Keeps-throw _))
          (λ _. Keeps-pure _))
        (λ _. Keeps-pure _)

  round-Took :
      (envelope : EventEnvelope) (start : Runtime)
      → Used u start
      → Round world envelope start (Used u) (λ _. Used u) (Took u) Anything
  round-Took envelope start h = record {
    starts = h;
    skips = chains-Took;
    picks = λ plan action snapshot picked. record {
      plumbing = Used-Plumbing u;
      stops = λ s h. tt;
      fails = λ s h. tt;
      after = chains-Took;
      tool = λ permitted approved.
          Hoare-of_Keeps _ (tool-Used envelope plan action snapshot.context) (λ _ s h. h)
            (λ s h. tt);
    };
  }

handle_once-Took :
    (world : Outside) (envelope : EventEnvelope) (s : Runtime)
    → After
        (Took s.inline_actions_used)
        Anything
        (handle_once world envelope s).0
        (handle_once world envelope s).1
handle_once-Took world envelope s =
    (round_rule (round-Took world s.inline_actions_used envelope s refl)).at s refl

-- The rounds that an invocation may still make.
abbrev pub rounds_left : Runtime → ℕ
rounds_left s = suc (inline_action_chain_budget - s.inline_actions_used)

follow-ne-out_of_fuel :
    (fuel u : ℕ) (world : Outside) (r : Result (Option EventEnvelope)) (s' : Runtime)
    → After (Took u) Anything r s'
    → ((envelope : EventEnvelope)
        → (s'.inline_actions_used ≡ u + 1) × (u < inline_action_chain_budget)
        → (handle fuel world envelope s').0 ≢ return out_of_fuel)
    → (continue r (follow (handle fuel world)) s').0 ≢ return out_of_fuel
unfolding follow ◌>>=◌
follow-ne-out_of_fuel fuel u world (raise e) s' h rest = λ e. cc
follow-ne-out_of_fuel fuel u world (return none) s' h rest = λ e. cc
follow-ne-out_of_fuel fuel u world (return (some envelope)) s' h rest = rest envelope h

-- With fuel for the inline actions that are left, and one more, the chain of rounds comes to its end.
pub handle-ne-out_of_fuel :
    (fuel : ℕ) (world : Outside) (envelope : EventEnvelope) (s : Runtime)
    → rounds_left s ≤ fuel
    → (handle fuel world envelope s).0 ≢ return out_of_fuel
unfolding handle ◌>>=◌
handle-ne-out_of_fuel zero world envelope s enough = absurd (omega arith)
handle-ne-out_of_fuel (suc fuel) world envelope s enough =
    let (r, s') = handle_once world envelope s in
    follow-ne-out_of_fuel fuel s.inline_actions_used world r s' (handle_once-Took world envelope s)
      (λ next took. handle-ne-out_of_fuel fuel world next s' (omega (arith, took.0, took.1)))

abbrev runs_made : Runtime → ℕ
runs_made s = length (tool_runs s.calls)

handle_once-runs_made :
    (world : Outside) (envelope : EventEnvelope) (s : Runtime)
    → runs_made (handle_once world envelope s).1 ≤ runs_made s + 1
handle_once-runs_made world envelope s = elim (handle_once-RanCleared world envelope s) [
  | inl same ↦ omega (arith, ap length same)
  | inr (action, ran, _) ↦
      omega (arith, ap length ran, length-append (tool_runs s.calls) (action ∷ []))
]

follow-runs_made :
    (fuel u : ℕ) (world : Outside) (r : Result (Option EventEnvelope)) (s' : Runtime)
    → After (Took u) Anything r s'
    → ((envelope : EventEnvelope)
        → runs_made (handle fuel world envelope s').1 ≤ runs_made s' + rounds_left s')
    → runs_made (continue r (follow (handle fuel world)) s').1
      ≤ runs_made s' + (inline_action_chain_budget - u)
unfolding follow ◌>>=◌
follow-runs_made fuel u world (raise e) s' h rest = omega arith
follow-runs_made fuel u world (return none) s' h rest = omega arith
follow-runs_made fuel u world (return (some envelope)) s' h rest =
    omega (arith, h.0, h.1, rest envelope)

-- One invocation runs at most one tool more than the inline actions that are left to it, whatever
-- the tools, the Prism API and the plans answer, and also if it raises.
pub handle-runs_made :
    (fuel : ℕ) (world : Outside) (envelope : EventEnvelope) (s : Runtime)
    → length (tool_runs (handle fuel world envelope s).1.calls)
      ≤ length (tool_runs s.calls) + suc (inline_action_chain_budget - s.inline_actions_used)
unfolding handle ◌>>=◌
handle-runs_made zero world envelope s = omega arith
handle-runs_made (suc fuel) world envelope s =
    let (r, s') = handle_once world envelope s in
    omega (
      arith,
      handle_once-runs_made world envelope s,
      follow-runs_made fuel s.inline_actions_used world r s' (handle_once-Took world envelope s)
          (λ next. handle-runs_made fuel world next s'),
    )
