-- ===== src/Application/ActionHandler/Rounds.antt =====
-- A proof rule for a round of the action handler: what holds before and after the tool runs.
use prism_agent.Prelude.{
  ℕ, ◌<◌, String, ◌≡◌, refl, Bool, true, false, not, ◌&&◌, ltb, [], ◌∷◌, Option, none, some, ◌⊎◌,
  inl, inr, Dict, arith, if◌then◌else◌,
}
use prism_agent.Domain.Events.{RuntimeEvent, EventEnvelope}
use prism_agent.Domain.Actions.{PlannedAction, ActionStatus, Version}
use prism_agent.Domain.Plans.{AgentPlan, is_subplan, next_pending_action}
use prism_agent.Domain.Policies.{diff}
use prism_agent.Domain.Results.{
  AgentContext, ToolResult, ValidationResult, ValidationDecision, commit, suggest, retry, replan,
  fail,
}
use prism_agent.Application.Effects.{Outside, Runtime, Action, Error, ◌>>=◌, pure, throw}
use prism_agent.Application.Effects.Keeps.{Keeps, Keeps-pure, Keeps-if, Keeps-try_except}
use prism_agent.Application.Effects.Hoare.{
  Hoare, Hoare-weaken, Hoare-then, Hoare-bind, Hoare-gets, Hoare-if, Hoare-pure, Hoare-throw,
}
use prism_agent.Application.Effects.Plumbing.{
  Plumbing, Keeps-store, Keeps-trace, Keeps-fresh, Keeps-enqueue, Keeps-wrapped,
}
use prism_agent.Application.Validator.{
  judge, validate_before_execution, validate_after_execution, is_permitted,
}
use prism_agent.Application.ActionHandler.Settle.{
  choose_next, chain_next, enqueue_later, enqueue_next_action, inline_action_chain_budget,
}
use prism_agent.Application.ActionHandler.Branches.{
  updated, tool_raised, skip_action, commit_branch, settle_result, after_tool, after_outcome,
  tool_outcome, run_branch, act_on, select_action, may_retry,
}
use prism_agent.Application.ActionHandler.Quiet.{
  Keeps-settle_subplan, Keeps-no_next, Keeps-note, Keeps-sync, Keeps-enqueue_events,
  Keeps-retry_branch, Keeps-failed_branch, Keeps-suggest_branch, Keeps-replan_branch,
  Keeps-fail_branch, Keeps-current_versions,
}

-- `P` holds before a part that may chain, `Q` afterwards.
pub record Chains (world : Outside) (P : Runtime → Type 0)
    (Q : Option EventEnvelope → Runtime → Type 0) (E : Runtime → Type 0) : Type 0 where
  pub plumbing : Plumbing P
  pub stops : (s : Runtime) → P s → Q none s
  pub fails : (s : Runtime) → P s → E s
  pub chains :
      (plan : AgentPlan) (next_action : PlannedAction) (event : RuntimeEvent)
      → Hoare
          (λ s. P s × (s.inline_actions_used < inline_action_chain_budget))
          (chain_next world plan next_action event)
          Q
          E

module _ {world : Outside} {P : Runtime → Type 0} {Q : Option EventEnvelope → Runtime → Type 0}
    {E : Runtime → Type 0} (rule : Chains world P Q E) where
  -- An action that keeps `P` and returns no envelope.
  ends : {A : Type 0} (m : Action A) → Keeps P m → Hoare P (m >>= λ _. pure none) Q E
  ends m k = Hoare-then m _ k rule.fails (λ _. Hoare-pure none rule.stops)

  -- A first part that keeps `P`.
  first :
      {A : Type 0} (m : Action A) (f : A → Action (Option EventEnvelope))
      → Keeps P m
      → ((a : A) → Hoare P (f a) Q E)
      → Hoare P (m >>= f) Q E
  first m f k = Hoare-then m f k rule.fails

  later :
      (plan : AgentPlan) (a : PlannedAction) (event : RuntimeEvent)
      → Hoare P (enqueue_later world plan a event) Q E
  unfolding enqueue_later
  later plan a event = first _ _ (Keeps-wrapped rule.plumbing world event) λ w.
      first _ _ (Keeps-enqueue rule.plumbing world w)
        λ _. ends _ (Keeps-trace rule.plumbing event _ _ _ _)

  chosen :
      (plan : AgentPlan) (a : PlannedAction) (event : RuntimeEvent) (used : ℕ)
      → Hoare
          (λ s. P s × (used ≡ s.inline_actions_used))
          (if not a.requires_approval && ltb used inline_action_chain_budget
            then chain_next world plan a event
            else enqueue_later world plan a event)
          Q
          E
  chosen plan a event used =
      Hoare-if (not a.requires_approval && ltb used inline_action_chain_budget)
        (chain_next world plan a event) (enqueue_later world plan a event)
        (λ t. Hoare-weaken _ _ (λ s h. (h.0, ground (arith, t))) (rule.chains plan a event))
        (λ _. Hoare-weaken _ _ (λ s h. h.0) (later plan a event))

  choose :
      (envelope : EventEnvelope) (plan : AgentPlan) (o : Option PlannedAction)
      → Hoare P (choose_next world envelope plan o) Q E
  unfolding choose_next
  choose envelope plan none = ends _ (Keeps-no_next rule.plumbing world envelope plan)
  choose envelope plan (some a) =
      Hoare-then _ _ (Keeps-fresh rule.plumbing world) rule.fails
        λ event_id. Hoare-gets _ _ λ used. chosen plan a _ used

  next_action :
      (envelope : EventEnvelope) (plan : AgentPlan)
      → Hoare P (enqueue_next_action world envelope plan) Q E
  unfolding enqueue_next_action
  next_action envelope plan = choose envelope plan (next_pending_action plan)

module _ {world : Outside} {P : Runtime → Type 0} {Q : Option EventEnvelope → Runtime → Type 0}
    {E : Runtime → Type 0} (rule : Chains world P Q E) (envelope : EventEnvelope) (plan : AgentPlan)
    (action : PlannedAction) where
  pub skip_rule : Hoare P (skip_action world envelope plan action) Q E
  unfolding skip_action
  skip_rule = first rule _ _ (Keeps-note rule.plumbing world envelope plan action _ _) λ _.
      Hoare-if _ (enqueue_next_action world envelope plan) (pure none)
        (λ _. next_action rule envelope plan) (λ _. Hoare-pure none rule.stops)

  commit_rule :
      (running_plan : AgentPlan) (v : ValidationResult)
      → Hoare P (commit_branch world envelope plan action running_plan v) Q E
  unfolding commit_branch
  commit_rule running_plan v = first rule _ _ (Keeps-store rule.plumbing _) λ _.
      first rule _ _ (Keeps-sync rule.plumbing world envelope plan action _ _ _ _) λ _.
        first rule _ _ (Keeps-store rule.plumbing _) λ _.
          first rule _ _ (Keeps-enqueue_events rule.plumbing world _) λ _.
            first rule _ _ (Keeps-note rule.plumbing world envelope plan action _ _)
              λ _. next_action rule envelope _

  settle_rule :
      (running_plan : AgentPlan) (v : ValidationResult) (d : ValidationDecision)
      → Hoare P (settle_result world envelope plan action running_plan v d) Q E
  unfolding settle_result
  settle_rule running_plan v commit = commit_rule running_plan v
  settle_rule running_plan v retry = ends rule _ (
      Keeps-if (may_retry world envelope plan action) _ _
        (Keeps-retry_branch rule.plumbing world envelope plan action running_plan v)
        (Keeps-failed_branch rule.plumbing world envelope plan action running_plan v))
  settle_rule running_plan v d =
      ends rule _ (Keeps-failed_branch rule.plumbing world envelope plan action running_plan v)

  after_tool_rule :
      (running_plan : AgentPlan) (result : ToolResult)
      → Hoare P (after_tool world envelope plan action running_plan result) Q E
  unfolding after_tool
  after_tool_rule running_plan result =
      let v = validate_after_execution result in
      first rule _ _ (Keeps-store rule.plumbing _) λ _.
        first rule _ _ (Keeps-note rule.plumbing world envelope plan action _ _)
          λ _. settle_rule running_plan v v.decision

  raised_rule :
      (running_plan : AgentPlan) (e : Error)
      → Hoare P (tool_raised world envelope plan action running_plan e) Q E
  unfolding tool_raised
  raised_rule running_plan e = first rule _ _ (Keeps-store rule.plumbing _) λ _.
      first rule _ _
        (Keeps-try_except _ _ (Keeps-sync rule.plumbing world envelope plan action _ _ _ _)
          (λ _. Keeps-pure tt))
        λ _. first rule _ _ (Keeps-note rule.plumbing world envelope plan action _ _) λ _.
          first rule _ _ (Keeps-note rule.plumbing world envelope plan action _ _) λ _.
            Hoare-if
              (is_subplan (updated world envelope plan action running_plan ActionStatus.failed)) _
              (throw e) (λ _. ends rule _ (Keeps-settle_subplan rule.plumbing world envelope _ _ _))
              (λ _. Hoare-throw e rule.fails)

  pub after_outcome_rule :
      (running_plan : AgentPlan) (o : ToolResult ⊎ Error)
      → Hoare P (after_outcome world envelope plan action running_plan o) Q E
  unfolding after_outcome
  after_outcome_rule running_plan (inl result) = after_tool_rule running_plan result
  after_outcome_rule running_plan (inr e) = raised_rule running_plan e

-- The part up to the tool keeps `P`; a tool that is run with permission and without a need of
-- approval leads from `P` to `P'`.
pub record Runs (world : Outside) (envelope : EventEnvelope) (plan : AgentPlan)
    (action : PlannedAction) (context : AgentContext) (P P' : Runtime → Type 0)
    (Q : Option EventEnvelope → Runtime → Type 0) (E : Runtime → Type 0) : Type 0 where
  pub plumbing : Plumbing P
  pub stops : (s : Runtime) → P s → Q none s
  pub fails : (s : Runtime) → P s → E s
  pub after : Chains world P' Q E
  pub tool :
      is_permitted context action.tool_name ≡ true
      → action.requires_approval ≡ false
      → Hoare P (tool_outcome world envelope plan action context) (λ _. P') E

-- The decisions that run the action.
abbrev runs : ValidationDecision → Bool
runs suggest = false
runs replan = false
runs fail = false
runs _ = true

module _ {world : Outside} {envelope : EventEnvelope} {plan : AgentPlan} {action : PlannedAction}
    {context : AgentContext} {P P' : Runtime → Type 0} {Q : Option EventEnvelope → Runtime → Type 0}
    {E : Runtime → Type 0} (rule : Runs world envelope plan action context P P' Q E) where
  begin :
      {A : Type 0} (m : Action A) (f : A → Action (Option EventEnvelope))
      → Keeps P m
      → ((a : A) → Hoare P (f a) Q E)
      → Hoare P (m >>= f) Q E
  begin m f k = Hoare-then m f k rule.fails

  run_rule :
      is_permitted context action.tool_name ≡ true
      → action.requires_approval ≡ false
      → Hoare P (run_branch world envelope plan action context) Q E
  unfolding run_branch
  run_rule permitted approved =
      begin _ _ (Keeps-sync rule.plumbing world envelope plan action _ _ _ _) λ _.
        begin _ _ (Keeps-store rule.plumbing _) λ _.
          begin _ _ (Keeps-note rule.plumbing world envelope plan action _ _) λ _.
            Hoare-bind (λ _. P') _ _ (rule.tool permitted approved)
              (after_outcome_rule rule.after envelope plan action _)

  stop : (m : Action (Unit {0})) → Keeps P m → Hoare P (m >>= λ _. pure none) Q E
  stop m k = begin m _ k (λ _. Hoare-pure none rule.stops)

  -- What a decision to run says of the action.
  abbrev Cleared : ValidationDecision → Type 0
  Cleared d =
      runs d ≡ true
      → (is_permitted context action.tool_name ≡ true) × (action.requires_approval ≡ false)

  act_rule :
      (v : ValidationResult) (d : ValidationDecision)
      → Cleared d
      → Hoare P (act_on world envelope plan action context v d) Q E
  unfolding act_on
  act_rule v suggest c = stop _ (Keeps-suggest_branch rule.plumbing world envelope plan action v)
  act_rule v replan c =
      stop _ (Keeps-replan_branch rule.plumbing world envelope plan action context v)
  act_rule v fail c = stop _ (Keeps-fail_branch rule.plumbing world envelope plan action v)
  act_rule v d c = run_rule (c refl).0 (c refl).1

  judge_rule :
      (stale : Dict String (Version × Version))
      → is_permitted context action.tool_name ≡ true
      → Hoare P (judge world action context stale) (λ v s. P s × Cleared v.decision) E
  unfolding judge
  judge_rule (x ∷ stale) permitted = Hoare-pure _ (λ s h. (h, λ e. cc))
  judge_rule [] permitted =
      Hoare-if action.requires_approval _ _
        (λ _. Hoare-then _ _ (Keeps-fresh rule.plumbing world) rule.fails λ _.
          Hoare-then _ _ (Keeps-fresh rule.plumbing world) rule.fails λ _.
            Hoare-then _ _ (Keeps-wrapped rule.plumbing world _) rule.fails
              λ _. Hoare-pure _ (λ s h. (h, λ e. cc)))
        (λ approved. Hoare-pure _ (λ s h. (h, λ _. (permitted, approved))))

  validate_rule :
      Hoare P (validate_before_execution world action context) (λ v s. P s × Cleared v.decision) E
  unfolding validate_before_execution
  validate_rule =
      Hoare-if (is_permitted context action.tool_name) _ _
        (λ permitted.
          Hoare-then _ _ (Keeps-current_versions rule.plumbing world action context) rule.fails
            λ current. judge_rule (diff action.expected_entity_versions current) permitted)
        (λ _. Hoare-pure _ (λ s h. (h, λ e. cc)))

  pub select_rule : Hoare P (select_action world envelope plan action context) Q E
  unfolding select_action
  select_rule = begin _ _ (Keeps-note rule.plumbing world envelope plan action _ _) λ _.
      Hoare-bind (λ v s. P s × Cleared v.decision) _ _ validate_rule
        λ v. record {
          at = λ s h.
              (begin _ _ (Keeps-note rule.plumbing world envelope plan action _ _)
                  (λ _. act_rule v v.decision h.1)).at
                s h.0;
        }
