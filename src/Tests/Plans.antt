-- ===== src/Tests/Plans.antt =====
-- Plans: the theorems at sample plans.
use prism_agent.Prelude.{All, ◌≡◌, ◌↔◌, inl, inr, refl, true, all, arith}
use mathlib.Core.List.{Memᴰ}
use prism_agent.Domain.Actions.{ActionStatus, has_status, is_unblocked, with_status}
use prism_agent.Domain.Plans.{
  completed, get_action, completed_action_ids, next_pending_action, replace_action, status_of,
}
use prism_agent.Domain.Plans.Next.{
  IsOpen, IsCompleted, IsRunnable, next_pending_action-some, next_pending_action-none,
}
use prism_agent.Domain.Plans.Replace.{IsDone, updated, replace_action-completed}
use prism_agent.Domain.Plans.Run.{commit_all, commit_all-completed}
use prism_agent.Tests.Samples.{plan, ended_plan, first_action, rank}

program : Unit {0}
unfolding is_unblocked with_status get_action completed_action_ids next_pending_action
    replace_action status_of
program = tt

plan-IsRunnable : IsRunnable rank plan.actions
plan-IsRunnable = record {
  ranked = omega arith;
  closed = (tt, ((refl, tt), tt));
  settled = (inl refl, (inl refl, tt));
}

ended_plan-IsRunnable : IsRunnable rank ended_plan.actions
ended_plan-IsRunnable = record {
  ranked = omega arith;
  closed = (tt, ((refl, tt), tt));
  settled = (inr refl, (inr refl, tt));
}

next_pending_action-some_example :
    Memᴰ first_action plan.actions
    × IsOpen plan.status
    × (first_action.status ≡ ActionStatus.pending)
    × All (IsCompleted plan.actions) first_action.depends_on
unfolding program
next_pending_action-some_example = next_pending_action-some plan first_action refl

next_pending_action-none_example : all (has_status ActionStatus.completed) ended_plan.actions ≡ true
unfolding program
next_pending_action-none_example =
    next_pending_action-none rank ended_plan ended_plan-IsRunnable refl refl

replace_action-completed_example :
    ((replace_action plan first_action).status ≡ completed)
    ↔ All (λ old. IsDone (updated first_action old)) plan.actions
replace_action-completed_example = replace_action-completed plan first_action

commit_all-completed_example : (commit_all 2 plan).status ≡ completed
commit_all-completed_example =
    commit_all-completed rank 2 plan plan-IsRunnable refl (omega arith) (omega arith)
