-- ===== src/Application/ActionHandler/Guards.antt =====
-- When a round of the action handler runs a tool.
use prism_agent.Prelude.{
  ◌<◌, ◌+◌, ◌≡◌, ◌⊎◌, ◌∙◌, refl, ap, true, false, List, [], ◌∷◌, ◌++◌, Option, inl, inr, Bool-cases,
}
use mathlib.Core.List.{append-nil}
use prism_agent.Domain.Events.{EventEnvelope, RuntimeEvent}
use prism_agent.Domain.Actions.{PlannedAction}
use prism_agent.Domain.Plans.{AgentPlan}
use prism_agent.Domain.Results.{AgentContext, ContextSnapshot, ToolResult}
use prism_agent.Application.Effects.{
  Outside, OutsideCall, run_tool, Runtime, Action, Result, return, raise, Error, pure, continue,
  result_or, ◌>>=◌,
}
use prism_agent.Application.Effects.Keeps.{Keeps, Keeps-bind, Keeps-modify, keeps_rules}
use prism_agent.Application.Effects.Hoare.{After, Hoare, Hoare-weaken, Hoare-of_Keeps}
use prism_agent.Application.Effects.Plumbing.{Plumbing, is_tool, Keeps-trace, Keeps-wrapped}
use prism_agent.Application.Validator.{is_permitted}
use prism_agent.Application.ActionHandler.Settle.{chain_next, inline_action_chain_budget}
use prism_agent.Application.ActionHandler.Branches.{handle_once, tool_outcome, execute_one}
use prism_agent.Application.ActionHandler.Rounds.{Chains}
use prism_agent.Application.ActionHandler.Picks.{IsPicked, Round, round_rule}

-- The actions whose tool was run, in order.
abbrev pub tool_runs : List OutsideCall → List PlannedAction
tool_runs [] = []
tool_runs (run_tool action context ∷ calls) = action ∷ tool_runs calls
tool_runs (_ ∷ calls) = tool_runs calls

tool_runs-append :
    (calls more : List OutsideCall) → tool_runs (calls ++ more) ≡ tool_runs calls ++ tool_runs more
tool_runs-append [] more = refl
tool_runs-append (run_tool a c ∷ calls) more = ap (λ l. a ∷ l) (tool_runs-append calls more)
tool_runs-append (_ ∷ calls) more = tool_runs-append calls more

quiet_runs : (call : OutsideCall) → is_tool call ≡ false → tool_runs (call ∷ []) ≡ []
quiet_runs (run_tool a c) h = cc
quiet_runs _ h = refl

abbrev pub Ran : List PlannedAction → Runtime → Type 0
Ran l s = tool_runs s.calls ≡ l

pub Ran-Plumbing : (l : List PlannedAction) → Plumbing (Ran l)
Ran-Plumbing l = record {
  any_store = λ s x h. h;
  any_queue = λ s x h. h;
  any_drawn = λ s x h. h;
  any_call = λ s call quiet h.
      tool_runs-append s.calls (call ∷ [])
      ∙ ap (λ m. tool_runs s.calls ++ m) (quiet_runs call quiet)
      ∙ append-nil (tool_runs s.calls)
      ∙ h;
}

chain_next-Keeps :
    {P : Runtime → Type 0} (p : Plumbing P)
    (counted : (s : Runtime)
      → P s
      → P (record s { inline_actions_used = s.inline_actions_used + 1 }))
    (world : Outside) (plan : AgentPlan) (a : PlannedAction) (event : RuntimeEvent)
    → Keeps P (chain_next world plan a event)
unfolding chain_next
chain_next-Keeps p counted world plan a event =
    Keeps-bind _ _ (Keeps-modify _ counted)
      λ _. search (keeps_rules, Keeps-trace, Keeps-wrapped) depth 12

-- Why the tool of an action was run: the round picked the action, which needs no approval and whose
-- tool the context permits.
pub record IsCleared (s : Runtime) (envelope : EventEnvelope) (action : PlannedAction)
    : Type 0 where
  pub plan : AgentPlan
  pub snapshot : ContextSnapshot
  pub picked : IsPicked s envelope plan action snapshot
  pub permitted : is_permitted snapshot.context action.tool_name ≡ true
  pub approved : action.requires_approval ≡ false

-- No tool was run since `start`, or one, for a cleared action.
abbrev pub RanCleared : Runtime → EventEnvelope → Runtime → Type 0
RanCleared start envelope s =
    (tool_runs s.calls ≡ tool_runs start.calls)
    ⊎ ((action : PlannedAction) × (tool_runs s.calls ≡ tool_runs start.calls ++ action ∷ [])
        × IsCleared start envelope action)

abbrev give : ToolResult → Action (ToolResult ⊎ Error)
give result = pure (inl result)

abbrev catch : Error → Action (ToolResult ⊎ Error)
catch exc = pure (inr exc)

-- A chained action, for an invariant that ignores the inline counter.
chained :
    {P : Runtime → Type 0} {Q : Option EventEnvelope → Runtime → Type 0} {E : Runtime → Type 0}
    (p : Plumbing P)
    (counted : (s : Runtime)
      → P s
      → P (record s { inline_actions_used = s.inline_actions_used + 1 }))
    (world : Outside) (plan : AgentPlan) (a : PlannedAction) (event : RuntimeEvent)
    → ((o : Option EventEnvelope) (s : Runtime) → P s → Q o s)
    → ((s : Runtime) → P s → E s)
    → Hoare
        (λ s. P s × (s.inline_actions_used < inline_action_chain_budget))
        (chain_next world plan a event)
        Q
        E
chained p counted world plan a event q e =
    Hoare-weaken _ _ (λ s h. h.0)
      (Hoare-of_Keeps (chain_next world plan a event)
        (chain_next-Keeps p counted world plan a event) q e)

module _ (world : Outside) (envelope : EventEnvelope) (start : Runtime) where
  abbrev Before : Runtime → Type 0
  Before = Ran (tool_runs start.calls)

  abbrev Since : Runtime → Type 0
  Since = RanCleared start envelope

  Since-call :
      (s : Runtime) (call : OutsideCall)
      → is_tool call ≡ false
      → Since s
      → Since (record s { calls = s.calls ++ call ∷ [] })
  Since-call s call quiet (inl same) =
      let p = Ran-Plumbing (tool_runs start.calls) in inl (p.any_call s call quiet same)
  Since-call s call quiet (inr (action, ran, cleared)) =
      let p = Ran-Plumbing (tool_runs start.calls ++ action ∷ []) in
      inr (action, p.any_call s call quiet ran, cleared)

  Since-Plumbing : Plumbing Since
  Since-Plumbing = record {
    any_store = λ s x h. h;
    any_queue = λ s x h. h;
    any_drawn = λ s x h. h;
    any_call = Since-call;
  }

  Since-run :
      (action : PlannedAction) (context : AgentContext) (s : Runtime)
      → IsCleared start envelope action
      → Before s
      → Since (record s { calls = s.calls ++ run_tool action context ∷ [] })
  Since-run action context s cleared h = inr (
    action,
    tool_runs-append s.calls (run_tool action context ∷ []) ∙ ap (λ l. l ++ action ∷ []) h,
    cleared,
  )

  execute-Since :
      (action : PlannedAction) (context : AgentContext) (s : Runtime)
      → IsCleared start envelope action
      → Before s
      → Since (execute_one world action context s).1
  unfolding execute_one ◌>>=◌
  execute-Since action context s cleared h = elim (Bool-cases (world.has_tool action.tool_name)) [
    | inl known ↦ rw known (Since-run action context s cleared h)
    | inr unknown ↦ rw unknown (inl h)
  ]

  -- Running the tool adds the action to the log, whether the tool answers or raises.
  tool-Since :
      (plan : AgentPlan) (action : PlannedAction) (context : AgentContext)
      → IsCleared start envelope action
      → Hoare Before (tool_outcome world envelope plan action context) (λ _. Since) Since
  unfolding tool_outcome ◌>>=◌
  tool-Since plan action context cleared = record {
    at = λ s h.
        let (r, s') = execute_one world action context s in
        go r s' (execute-Since action context s cleared h);
  }
    where
      go :
          (r : Result ToolResult) (s' : Runtime)
          → Since s'
          → After
              (λ _. Since)
              Since
              (result_or (continue r give s').0 catch (continue r give s').1).0
              (result_or (continue r give s').0 catch (continue r give s').1).1
      go (return a) s' h = h
      go (raise e) s' h = h

  chains-Since : Chains world Since (λ _. Since) Since
  chains-Since = record {
    plumbing = Since-Plumbing;
    stops = λ s h. h;
    fails = λ s h. h;
    chains = λ plan a event.
        chained Since-Plumbing (λ s h. h) world plan a event (λ _ s h. h) (λ s h. h);
  }

  round-Since : Round world envelope start Before (λ _. Since) (λ _. Since) Since
  round-Since = record {
    starts = refl;
    skips = record {
      plumbing = Ran-Plumbing (tool_runs start.calls);
      stops = λ s h. inl h;
      fails = λ s h. inl h;
      chains = λ plan a event.
          chained (Ran-Plumbing (tool_runs start.calls)) (λ s h. h) world plan a event
            (λ _ s h. inl h) (λ s h. inl h);
    };
    picks = λ plan action snapshot picked. record {
      plumbing = Ran-Plumbing (tool_runs start.calls);
      stops = λ s h. inl h;
      fails = λ s h. inl h;
      after = chains-Since;
      tool = λ permitted approved. tool-Since plan action snapshot.context record {
        plan = plan;
        snapshot = snapshot;
        picked = picked;
        permitted = permitted;
        approved = approved;
      };
    };
  }

-- A round of the handler runs at most one tool. It runs one only for a pending action that the event
-- names, of a stored plan with a stored context, whose idempotency key is unused, which needs no
-- approval, and whose tool the context permits. This holds whether the round returns or raises.
pub handle_once-RanCleared :
    (world : Outside) (envelope : EventEnvelope) (start : Runtime)
    → RanCleared start envelope (handle_once world envelope start).1
handle_once-RanCleared world envelope start =
    let (r, s') = handle_once world envelope start in
    ended r s' ((round_rule (round-Since world envelope start)).at start refl)
  where
    ended :
        (r : Result (Option EventEnvelope)) (s' : Runtime)
        → After (λ _. RanCleared start envelope) (RanCleared start envelope) r s'
        → RanCleared start envelope s'
    ended (return o) s' h = h
    ended (raise e) s' h = h
