-- ===== src/Application/ActionHandler/Picks.antt =====
-- A proof rule for `handle_once` from one state: which plan, action and context the round picks.
use prism_agent.Prelude.{
  String, ◌≡◌, ◌∙◌, sym, refl, Bool, true, false, not, Option, none, some, arith,
}
use mathlib.Core.Path.{subst}
use prism_agent.Domain.Events.{EventEnvelope, EventKind, agent_action}
use prism_agent.Domain.Actions.{PlannedAction, ActionStatus, has_status}
use prism_agent.Domain.Plans.{AgentPlan, get_action}
use prism_agent.Domain.Results.{ContextSnapshot}
use prism_agent.Infrastructure.StateStore.{get_plan, get_context_snapshot, check_idempotency_key}
use prism_agent.Application.Effects.{Outside, Runtime}
use prism_agent.Application.Effects.Hoare.{
  Hoare, Hoare-weaken, Hoare-gets, Hoare-if, Hoare-throw, Hoare-then, Hoare-pure,
}
use prism_agent.Application.ActionHandler.Branches.{
  handle_once, dispatch_kind, find_plan, find_action, handle_action, with_snapshot, check_duplicate,
  skip_action,
}
use prism_agent.Application.ActionHandler.Quiet.{Keeps-note}
use prism_agent.Application.ActionHandler.Rounds.{Chains, Runs, skip_rule, select_rule}

-- The event names a pending action of a stored plan, whose context is stored and whose idempotency
-- key is unused.
pub record IsPicked (s : Runtime) (envelope : EventEnvelope) (plan : AgentPlan)
    (action : PlannedAction) (snapshot : ContextSnapshot) : Type 0 where
  pub plan_id : String
  pub action_id : String
  pub kind : envelope.event.kind ≡ agent_action plan_id action_id
  pub planned : get_plan s.store envelope.event.workspace_id plan_id ≡ some plan
  pub named : get_action plan action_id ≡ some action
  pub pending : action.status ≡ ActionStatus.pending
  pub hydrated :
      get_context_snapshot s.store envelope.event.workspace_id plan.context_snapshot_ref
      ≡ some snapshot
  pub unused : check_idempotency_key s.store action.idempotency_key ≡ false

-- What to show of a round from the state `start`.
pub record Round (world : Outside) (envelope : EventEnvelope) (start : Runtime)
    (P : Runtime → Type 0) (P' : PlannedAction → Runtime → Type 0)
    (Q : Option EventEnvelope → Runtime → Type 0) (E : Runtime → Type 0) : Type 0 where
  pub starts : P start
  pub skips : Chains world P Q E
  pub picks :
      (plan : AgentPlan) (action : PlannedAction) (snapshot : ContextSnapshot)
      → IsPicked start envelope plan action snapshot
      → Runs world envelope plan action snapshot.context P (P' action) Q E

module _ {world : Outside} {envelope : EventEnvelope} {start : Runtime} {P : Runtime → Type 0}
    {P' : PlannedAction → Runtime → Type 0} {Q : Option EventEnvelope → Runtime → Type 0}
    {E : Runtime → Type 0} (round : Round world envelope start P P' Q E) where
  abbrev Here : Runtime → Type 0
  Here s = s ≡ start

  from : (s : Runtime) → Here s → P s
  from s e = subst P (sym e) round.starts

  duplicate_rule :
      (plan : AgentPlan) (action : PlannedAction) (snapshot : ContextSnapshot) (used : Bool)
      → (used ≡ false → IsPicked start envelope plan action snapshot)
      → Hoare P (check_duplicate world envelope plan action snapshot.context used) Q E
  unfolding check_duplicate
  duplicate_rule plan action snapshot true picked =
      Hoare-then _ _ (Keeps-note round.skips.plumbing world envelope plan action _ _)
        round.skips.fails (λ _. Hoare-pure none round.skips.stops)
  duplicate_rule plan action snapshot false picked =
      select_rule (round.picks plan action snapshot (picked refl))

  snapshot_rule :
      (plan : AgentPlan) (action : PlannedAction) (o : Option ContextSnapshot)
      → ((snapshot : ContextSnapshot)
          → o ≡ some snapshot
          → check_idempotency_key start.store action.idempotency_key ≡ false
          → IsPicked start envelope plan action snapshot)
      → Hoare Here (with_snapshot world envelope plan action o) Q E
  unfolding with_snapshot
  snapshot_rule plan action none picked = Hoare-throw _ (λ s h. round.skips.fails s (from s h))
  snapshot_rule plan action (some snapshot) picked = Hoare-gets _ _ λ used. record {
    at = λ s h.
        let unused : used ≡ false
            → check_idempotency_key start.store action.idempotency_key ≡ false =
          λ e.
            subst (λ t. check_idempotency_key t.store action.idempotency_key ≡ false) h.0
              (sym h.1 ∙ e) in
        let rest =
          duplicate_rule plan action snapshot used (λ e. picked snapshot refl (unused e)) in
        rest.at s (from s h.0);
  }

  action_rule :
      (plan : AgentPlan) (action : PlannedAction)
      → ((snapshot : ContextSnapshot)
          → action.status ≡ ActionStatus.pending
          → get_context_snapshot start.store envelope.event.workspace_id plan.context_snapshot_ref
            ≡ some snapshot
          → check_idempotency_key start.store action.idempotency_key ≡ false
          → IsPicked start envelope plan action snapshot)
      → Hoare Here (handle_action world envelope plan action) Q E
  unfolding handle_action
  action_rule plan action picked =
      Hoare-if (not (has_status ActionStatus.pending action))
        (skip_action world envelope plan action) _
        (λ _. Hoare-weaken Here _ from (skip_rule round.skips envelope plan action))
        (λ waits. Hoare-gets _ _ λ o. record {
          at = λ s h.
              let hydrated : (snapshot : ContextSnapshot)
                  → o ≡ some snapshot
                  → get_context_snapshot start.store envelope.event.workspace_id
                      plan.context_snapshot_ref
                    ≡ some snapshot =
                λ snapshot e.
                  subst
                    (λ t.
                      get_context_snapshot t.store envelope.event.workspace_id
                        plan.context_snapshot_ref
                      ≡ some snapshot)
                    h.0 (sym h.1 ∙ e) in
              let rest =
                snapshot_rule plan action o
                  (λ snapshot e. picked snapshot (ground (arith, waits)) (hydrated snapshot e)) in
              rest.at s h.0;
        })

  find_action_rule :
      (plan_id action_id : String) (plan : AgentPlan) (o : Option PlannedAction)
      → envelope.event.kind ≡ agent_action plan_id action_id
      → get_plan start.store envelope.event.workspace_id plan_id ≡ some plan
      → get_action plan action_id ≡ o
      → Hoare Here (find_action world envelope plan action_id o) Q E
  unfolding find_action
  find_action_rule plan_id action_id plan none kind planned named =
      Hoare-throw _ (λ s h. round.skips.fails s (from s h))
  find_action_rule plan_id action_id plan (some action) kind planned named =
      action_rule plan action λ snapshot waits hydrated unused. record {
        plan_id = plan_id;
        action_id = action_id;
        kind = kind;
        planned = planned;
        named = named;
        pending = waits;
        hydrated = hydrated;
        unused = unused;
      }

  find_plan_rule :
      (plan_id action_id : String) (o : Option AgentPlan)
      → envelope.event.kind ≡ agent_action plan_id action_id
      → get_plan start.store envelope.event.workspace_id plan_id ≡ o
      → Hoare Here (find_plan world envelope plan_id action_id o) Q E
  unfolding find_plan
  find_plan_rule plan_id action_id none kind planned =
      Hoare-throw _ (λ s h. round.skips.fails s (from s h))
  find_plan_rule plan_id action_id (some plan) kind planned =
      find_action_rule plan_id action_id plan (get_action plan action_id) kind planned refl

  dispatch_rule :
      (k : EventKind) → envelope.event.kind ≡ k → Hoare Here (dispatch_kind world envelope k) Q E
  unfolding dispatch_kind
  dispatch_rule (agent_action plan_id action_id) kind = Hoare-gets _ _ λ o. record {
    at = λ s h.
        let planned : get_plan start.store envelope.event.workspace_id plan_id ≡ o =
          subst (λ t. get_plan t.store envelope.event.workspace_id plan_id ≡ o) h.0 (sym h.1) in
        let rest = find_plan_rule plan_id action_id o kind planned in rest.at s h.0;
  }
  dispatch_rule _ kind = Hoare-throw _ (λ s h. round.skips.fails s (from s h))

  -- The round ends in `Q`, or raises and ends in `E`.
  pub round_rule : Hoare Here (handle_once world envelope) Q E
  unfolding handle_once
  round_rule = dispatch_rule envelope.event.kind refl
