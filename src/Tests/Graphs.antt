-- ===== src/Tests/Graphs.antt =====
-- Task graphs: runs of `plan_advance`, and the theorems at sample graphs.
use prism_agent.Prelude.{◌≤◌, ◌≡◌, ◌⊎◌, refl, true, List, [], ◌∷◌, count, any, All, ◌==◌, arith}
use mathlib.Core.List.{filter_map}
use prism_agent.Domain.Subtasks.{
  SubTaskStatus, completed, failed, has_status, get_node, plan_advance, claim_ready,
  with_node_status, only_graph, ready_nodes, completed_node_ids, is_unblocked, first_of_node,
  synthesizer_named, start_all, current_nodes, all_nodes_completed, names_synthesizer, finish,
  after_completion, record_status, advance_from,
}
use prism_agent.Domain.Subtasks.Claims.{ids, claim_ready_lem}
use prism_agent.Domain.Subtasks.Idempotence.{plan_advance-plan_advance}
use prism_agent.Domain.Subtasks.Dispatch.{
  Call, claim, settle, dispatched, step, pending_count, dispatched-le-pending_count,
}
use prism_agent.Domain.Subtasks.Outcome.{
  IsAcyclic, IsFinished, plan_advance-blocked, plan_advance-run_completed,
}
use prism_agent.Domain.Subtasks.InFlight.{some_running, plan_advance-GoesOn}
use prism_agent.Tests.Samples.{node, fresh_graph, started_graph, last_graph, stuck_graph, rank}

program : Unit {0}
unfolding get_node first_of_node synthesizer_named with_node_status is_unblocked ready_nodes
    completed_node_ids start_all current_nodes filter_map claim_ready all_nodes_completed
    names_synthesizer finish after_completion record_status advance_from plan_advance
program = tt

abbrev history : List Call
history = claim ∷ settle "a" true ∷ settle "a" true ∷ settle "b" true ∷ settle "b" true ∷ []

-- Each node and the synthesizer are dispatched once, though every completion comes twice.
dispatched-history : dispatched fresh_graph history ≡ "a" ∷ "b" ∷ "synthesizer" ∷ []
unfolding program dispatched step
dispatched-history = refl

dispatched-le-pending_count_example :
    count (λ j. j == "b") (dispatched fresh_graph history) ≤ pending_count "b" fresh_graph
dispatched-le-pending_count_example = dispatched-le-pending_count "b" fresh_graph history

plan_advance-plan_advance_example :
    plan_advance (plan_advance started_graph "a" completed).graph "a" completed
    ≡ record (only_graph (plan_advance started_graph "a" completed).graph) {
      already_processed = true;
    }
unfolding program
plan_advance-plan_advance_example =
    plan_advance-plan_advance started_graph "a" completed (node "a" [] SubTaskStatus.running) refl

claim_ready_example :
    (ids (claim_ready fresh_graph).1
      ≡ ids (ready_nodes fresh_graph (completed_node_ids fresh_graph)))
    × All (λ r. r.status ≡ SubTaskStatus.running) (claim_ready fresh_graph).1
claim_ready_example = claim_ready_lem fresh_graph

plan_advance-run_completed_example : IsFinished (plan_advance last_graph "b" completed).graph
unfolding program
plan_advance-run_completed_example = plan_advance-run_completed last_graph "b" completed refl

started-IsAcyclic : IsAcyclic rank started_graph
started-IsAcyclic = record { ranked = omega arith; closed = (tt, ((refl, tt), tt)) }

stuck-IsAcyclic : IsAcyclic rank stuck_graph
stuck-IsAcyclic = record { ranked = omega arith; closed = (tt, (tt, ((refl, tt), tt))) }

plan_advance-blocked_example :
    any (has_status failed) (plan_advance stuck_graph "a" completed).graph.nodes ≡ true
unfolding program
plan_advance-blocked_example =
    plan_advance-blocked rank stuck_graph "a" completed stuck-IsAcyclic refl

plan_advance-GoesOn_example :
    ((plan_advance started_graph "a" completed).run_completed ≡ true)
    ⊎ (some_running (plan_advance started_graph "a" completed).graph ≡ true)
unfolding program
plan_advance-GoesOn_example =
    plan_advance-GoesOn rank started_graph "a" (node "a" [] SubTaskStatus.running) started-IsAcyclic
      refl refl refl
