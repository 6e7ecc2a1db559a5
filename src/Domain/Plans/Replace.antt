-- ===== src/Domain/Plans/Replace.antt =====
-- The update of one action of a plan (`replace_action`).
use prism_agent.Prelude.{
  String, ◌≡◌, ◌↔◌, refl, true, List, [], ◌∷◌, map, All, all, ◌⊎◌, ◌||◌, find?, arith,
  if◌then◌else◌, ◌==◌, eq_iff,
}
use mathlib.Core.Option
use prism_agent.Domain.Actions.{PlannedAction, ActionStatus, status_eq}
use prism_agent.Domain.Plans.{
  AgentPlan, completed, names_action, get_action, is_settled, status_of, replace, replace_action,
}

find?-replace :
    (new : PlannedAction) (i : String) (actions : List PlannedAction)
    → find? (names_action i) (map (replace new) actions)
      ≡ Option.map (λ old. if new.action_id == i then new else old) (find? (names_action i) actions)
find?-replace new i [] = refl
find?-replace new i (a ∷ actions) = ground (
  arith,
  find?-replace new i actions,
  eq_iff a.action_id new.action_id,
  eq_iff a.action_id i,
  eq_iff new.action_id i,
)

-- After an update the plan has the new action under its name, if it had one of that name, and its
-- other actions as they were.
get_action-replace_action :
    (plan : AgentPlan) (new : PlannedAction) (i : String)
    → get_action (replace_action plan new) i
      ≡ Option.map (λ old. if new.action_id == i then new else old) (get_action plan i)
unfolding get_action replace_action
get_action-replace_action plan new i = find?-replace new i plan.actions

-- An action that is over without a failure.
abbrev pub IsDone : PlannedAction → Type 0
IsDone action = (action.status ≡ ActionStatus.completed) ⊎ (action.status ≡ ActionStatus.skipped)

IsDone-status :
    (s : ActionStatus)
    → ((status_eq s ActionStatus.completed || status_eq s ActionStatus.skipped) ≡ true)
      ↔ ((s ≡ ActionStatus.completed) ⊎ (s ≡ ActionStatus.skipped))
IsDone-status s = (λ h. ground arith, λ h. ground arith)

is_settled_iff : (action : PlannedAction) → (is_settled action ≡ true) ↔ IsDone action
is_settled_iff action = IsDone-status action.status

-- An action of the plan, or the one that comes in its place.
abbrev pub updated : PlannedAction → PlannedAction → PlannedAction
updated new old = if old.action_id == new.action_id then new else old

all_settled_iff :
    (new : PlannedAction) (actions : List PlannedAction)
    → (all is_settled (map (replace new) actions) ≡ true)
      ↔ All (λ old. IsDone (updated new old)) actions
all_settled_iff new [] = (λ h. tt, λ h. refl)
all_settled_iff new (a ∷ actions) =
    let (onto, back) = is_settled_iff (updated new a) in
    let (onto_rest, back_rest) = all_settled_iff new actions in
    (
      λ h. (onto (ground (arith, h)), onto_rest (ground (arith, h))),
      λ h. ground (arith, back h.0, back_rest h.1),
    )

status_of-completed :
    (actions : List PlannedAction)
    → (status_of actions ≡ completed) ↔ (all is_settled actions ≡ true)
unfolding status_of
status_of-completed actions = (λ h. ground arith, λ h. ground arith)

-- A plan is completed by an update exactly when the action that comes in, if one of the plan has its
-- name, and each action of another name are completed or skipped.
pub replace_action-completed :
    (plan : AgentPlan) (new : PlannedAction)
    → ((replace_action plan new).status ≡ completed)
      ↔ All (λ old. IsDone (updated new old)) plan.actions
unfolding replace_action
replace_action-completed plan new =
    let (onto, back) = status_of-completed (map (replace new) plan.actions) in
    let (onto_all, back_all) = all_settled_iff new plan.actions in
    (λ h. onto_all (onto h), λ h. back (back_all h))
