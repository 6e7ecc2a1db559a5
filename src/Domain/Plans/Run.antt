-- ===== src/Domain/Plans/Run.antt =====
-- A plan whose every action succeeds: the loop of `next_pending_action` and `replace_action` that
-- the action handler drives.
use prism_agent.Prelude.{
  ℕ, zero, suc, ◌≤◌, ◌<◌, String, ◌≡◌, ◌≢◌, ◌⊎◌, refl, true, false, Option, none, some, List, [],
  ◌∷◌, map, all, any, elem, count, All, All-mem, arith, Option-cases, Bool-cases, inl, inr, ◌==◌,
  eq_iff, eq_refl, ap,
}
use native.Mathlib.Decide.{dec_lt}
use mathlib.Core.List.{Memᴰ}
use prism_agent.Domain.Actions.{PlannedAction, ActionStatus, has_status, with_status}
use prism_agent.Domain.Plans.{
  AgentPlan, running, completed, is_open, next_pending_action, is_settled, status_of, replace,
  replace_action,
}
use prism_agent.Domain.Plans.Next.{
  ids, IsRunnable, next_pending_action-some, next_pending_action-none,
}

complete : PlannedAction → PlannedAction
complete action = with_status action ActionStatus.completed

commit : AgentPlan → Option PlannedAction → AgentPlan
commit plan none = plan
commit plan (some action) = replace_action plan (complete action)

-- As many steps as the fuel allows. A plan with nothing to run stays as it is.
pub commit_all : ℕ → AgentPlan → AgentPlan
commit_all zero plan = plan
commit_all (suc fuel) plan = commit_all fuel (commit plan (next_pending_action plan))

abbrev pub pending_count : List PlannedAction → ℕ
pending_count = count (has_status ActionStatus.pending)

module _ (new : PlannedAction) where
  ids-replace : (actions : List PlannedAction) → ids (map (replace new) actions) ≡ ids actions
  ids-replace [] = refl
  ids-replace (a ∷ actions) = ground (arith, ids-replace actions, eq_iff a.action_id new.action_id)

  All-replace {κ} :
      (P : PlannedAction → Type κ) (actions : List PlannedAction)
      → P new
      → All P actions
      → All P (map (replace new) actions)
  All-replace P [] p h = tt
  All-replace P (a ∷ actions) p h = elim (Bool-cases (a.action_id == new.action_id)) [
    | inl same ↦ rw same (p, All-replace P actions p h.1)
    | inr other ↦ rw other (h.0, All-replace P actions p h.1)
  ]

pending_count-replace :
    (a : PlannedAction) (actions : List PlannedAction)
    → pending_count (map (replace (complete a)) actions) ≤ pending_count actions
unfolding complete with_status
pending_count-replace a [] = omega arith
pending_count-replace a (b ∷ actions) = ground (arith, pending_count-replace a actions)

pending_count-drops :
    (a : PlannedAction) (actions : List PlannedAction)
    → Memᴰ a actions
    → a.status ≡ ActionStatus.pending
    → pending_count (map (replace (complete a)) actions) < pending_count actions
unfolding complete with_status
pending_count-drops a [] m h = elim m [ ]
pending_count-drops a (b ∷ actions) (Memᴰ.head e) h = ground (
  arith,
  pending_count-replace a actions,
  ap (λ (x : PlannedAction). x.status) e,
  ap (λ (x : PlannedAction). x.action_id) e,
  eq_refl a.action_id,
)
pending_count-drops a (b ∷ actions) (Memᴰ.tail m) h =
    ground (arith, pending_count-drops a actions m h)

IsRunnable-complete :
    (rank : String → ℕ) (a : PlannedAction) (actions : List PlannedAction)
    → Memᴰ a actions
    → IsRunnable rank actions
    → IsRunnable rank (map (replace (complete a)) actions)
unfolding complete with_status
IsRunnable-complete rank a actions m r = record {
  ranked = All-replace (complete a) _ actions (All-mem _ actions r.ranked m) r.ranked;
  closed = rw (ids-replace (complete a) actions) (
      All-replace (complete a) (λ b. All (λ d. elem d (ids actions) ≡ true) b.depends_on) actions
        (All-mem _ actions r.closed m) r.closed);
  settled = All-replace (complete a) _ actions (inr refl) r.settled;
}

abbrev Halfway : PlannedAction → Type 0
Halfway a =
    (has_status ActionStatus.pending a ≡ true) ⊎ (has_status ActionStatus.completed a ≡ true)

settled_when_none_pending :
    (actions : List PlannedAction)
    → All Halfway actions
    → pending_count actions ≡ 0
    → all is_settled actions ≡ true
settled_when_none_pending [] h e = refl
settled_when_none_pending (a ∷ actions) h e =
    ground (arith, h.0, settled_when_none_pending actions h.1)

unsettled_when_pending :
    (actions : List PlannedAction) → 0 < pending_count actions → all is_settled actions ≡ false
unsettled_when_pending [] e = absurd (omega arith)
unsettled_when_pending (a ∷ actions) e = ground (arith, unsettled_when_pending actions)

none_other :
    (s : ActionStatus) (actions : List PlannedAction)
    → ((a : PlannedAction) → Halfway a → has_status s a ≡ false)
    → All Halfway actions
    → any (has_status s) actions ≡ false
none_other s [] f h = refl
none_other s (a ∷ actions) f h = ground (arith, f a h.0, none_other s actions f h.1)

status_of-running :
    (actions : List PlannedAction)
    → All Halfway actions
    → 0 < pending_count actions
    → status_of actions ≡ running
unfolding status_of
status_of-running actions h waits = ground (
  arith,
  unsettled_when_pending actions waits,
  none_other ActionStatus.failed actions (λ a e. ground arith) h,
  none_other ActionStatus.requires_approval actions (λ a e. ground arith) h,
  none_other ActionStatus.stale actions (λ a e. ground arith) h,
)

status_of-completed :
    (actions : List PlannedAction)
    → All Halfway actions
    → pending_count actions ≡ 0
    → status_of actions ≡ completed
unfolding status_of
status_of-completed actions h e = ground (arith, settled_when_none_pending actions h e)

all-completed_pending :
    (actions : List PlannedAction)
    → all (has_status ActionStatus.completed) actions ≡ true
    → pending_count actions ≡ 0
all-completed_pending [] h = refl
all-completed_pending (a ∷ actions) h = ground (arith, all-completed_pending actions)

some-next :
    (rank : String → ℕ) (plan : AgentPlan)
    → IsRunnable rank plan.actions
    → is_open plan.status ≡ true
    → 0 < pending_count plan.actions
    → next_pending_action plan ≢ none
some-next rank plan r o waits h =
    absurd
      (omega (arith, all-completed_pending plan.actions (next_pending_action-none rank plan r o h)))

commit_all-step :
    (fuel : ℕ) (plan : AgentPlan) {o : Option PlannedAction}
    → next_pending_action plan ≡ o
    → commit_all (suc fuel) plan ≡ commit_all fuel (commit plan o)
unfolding commit_all
commit_all-step fuel plan e = ap (λ o. commit_all fuel (commit plan o)) e

commit_all-completed_fix :
    (fuel : ℕ) (plan : AgentPlan)
    → plan.status ≡ completed
    → (commit_all fuel plan).status ≡ completed
unfolding next_pending_action commit
commit_all-completed_fix zero plan e = unfold commit_all in e
commit_all-completed_fix (suc fuel) plan e =
    rw (commit_all-step fuel plan {o = none} (ground (arith, e)))
      (commit_all-completed_fix fuel plan e)

module _ (rank : String → ℕ) (plan : AgentPlan) (r : IsRunnable rank plan.actions)
    (a : PlannedAction) (found : next_pending_action plan ≡ some a) where
  abbrev after : AgentPlan
  after = replace_action plan (complete a)

  chosen : Memᴰ a plan.actions
  chosen = (next_pending_action-some plan a found).0

  after-IsRunnable : IsRunnable rank after.actions
  unfolding replace_action
  after-IsRunnable = IsRunnable-complete rank a plan.actions chosen r

  after-drops : pending_count after.actions < pending_count plan.actions
  unfolding replace_action
  after-drops = pending_count-drops a plan.actions chosen (next_pending_action-some plan a found).2

  after-running : 0 < pending_count after.actions → after.status ≡ running
  unfolding replace_action
  after-running more = status_of-running after.actions after-IsRunnable.settled more

  after-completed : pending_count after.actions ≡ 0 → after.status ≡ completed
  unfolding replace_action
  after-completed e = status_of-completed after.actions after-IsRunnable.settled e

-- An open plan with acyclic dependencies and some pending action is completed after as many
-- successful actions as were pending, whatever the order of the list.
pub commit_all-completed :
    (rank : String → ℕ) (fuel : ℕ) (plan : AgentPlan)
    → IsRunnable rank plan.actions
    → is_open plan.status ≡ true
    → 0 < pending_count plan.actions
    → pending_count plan.actions ≤ fuel
    → (commit_all fuel plan).status ≡ completed
unfolding commit
commit_all-completed rank zero plan r o waits enough = absurd (omega arith)
commit_all-completed rank (suc fuel) plan r o waits enough =
    elim (Option-cases (next_pending_action plan)) [
      | inl none_left ↦ absurd (some-next rank plan r o waits none_left)
      | inr (a, found) ↦
          let drops = after-drops rank plan r a found in
          let next = after rank plan r a found in
          rw (commit_all-step fuel plan found) (elim (dec_lt 0 (pending_count next.actions)) [
            | yes more ↦
                commit_all-completed rank fuel next (after-IsRunnable rank plan r a found)
                  (rw (after-running rank plan r a found more)) more (omega (arith, drops))
            | no last ↦
                commit_all-completed_fix fuel next
                  (after-completed rank plan r a found (omega arith))
          ])
    ]
