-- ===== src/Domain/Subtasks/Progress.antt =====
-- A run does not stall: a graph in which nothing can start (`ready_nodes`).
use prism_agent.Prelude.{
  ℕ, String, ◌≡◌, ◌⊎◌, true, false, List, any, all, All-impl, All-×, any-false, arith, is_empty,
}
use prism_agent.Prelude.Dependencies.{all_completed-of_idle}
use prism_agent.Prelude.Dependencies
use prism_agent.Domain.Subtasks.{
  SubTask, TaskGraph, pending, running, completed, failed, has_status, ready_nodes, is_unblocked,
  completed_node_ids,
}
use prism_agent.Domain.Subtasks.Claims.{ids}

-- The dependencies have no cycle, as `rank` shows, and name nodes of the list `known`.
abbrev pub IsRanked : (String → ℕ) → List SubTask → Type 0
IsRanked = Dependencies.IsRanked (λ node. node.node_id) (λ node. node.depends_on)

abbrev pub IsClosed : List String → List SubTask → Type 0
IsClosed = Dependencies.IsClosed (λ node. node.node_id) (λ node. node.depends_on)

settled_of :
    (n : SubTask)
    → (has_status failed n ≡ false) × (has_status running n ≡ false)
    → (has_status pending n ≡ true) ⊎ (has_status completed n ≡ true)
settled_of n h = ground arith

-- A list of nodes with acyclic dependencies, of which none is ready, running or failed, is completed.
pub idle-all_completed :
    (rank : String → ℕ) (g : TaskGraph)
    → IsRanked rank g.nodes
    → IsClosed (ids g.nodes) g.nodes
    → is_empty (ready_nodes g (completed_node_ids g)) ≡ true
    → any (has_status running) g.nodes ≡ false
    → any (has_status failed) g.nodes ≡ false
    → all (has_status completed) g.nodes ≡ true
unfolding ready_nodes completed_node_ids is_unblocked
idle-all_completed rank g ranked closed idle still unfailed =
    let nodes = g.nodes in
    all_completed-of_idle (λ n. n.node_id) (λ n. n.depends_on) (has_status pending)
      (has_status completed) rank nodes ranked closed idle
      (All-impl _ _ nodes settled_of (
        All-× _ _ nodes (any-false (has_status failed) nodes unfailed)
          (any-false (has_status running) nodes still)))
