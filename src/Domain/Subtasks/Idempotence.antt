-- ===== src/Domain/Subtasks/Idempotence.antt =====
-- A completion event that is delivered twice (`plan_advance`).
use prism_agent.Prelude.{
  String, ◌≡◌, refl, true, false, Option, none, some, List, [], ◌∷◌, map, select, All, arith, ◌==◌,
  Bool-cases, inl, inr,
}
use prism_agent.Domain.Subtasks.{
  SubTask, TaskGraph, SubTaskStatus, running, completed, set_status, get_node, with_node_status,
  synthesizer_named, plan_advance, advance_from, record_status, after_completion, finish,
  completed_node_ids, only_graph, is_ready, ready_nodes, names_synthesizer,
}
use prism_agent.Domain.Subtasks.Status.{
  status_eq_iff, status_eq_refl, get_node-with_node_status_self, get_node-with_node_status_ne,
  get_node-start_all,
}

-- A ready node is pending, so it is not the node that was just completed.
ready-apart :
    (i : String) (done : List String) (nodes : List SubTask)
    → All
        (λ r. (r.node_id == i) ≡ false)
        (select (is_ready done) (map (set_status i completed) nodes))
ready-apart i done [] = tt
ready-apart i done (node ∷ nodes) = ground (arith, ready-apart i done nodes)

module _ (u : TaskGraph) (i : String) {node : SubTask} (found : get_node u i ≡ some node)
    (other : names_synthesizer u i ≡ false) where
  unnamed : (x : SubTask) → u.synthesizer_node ≡ some x → (x.node_id == i) ≡ false
  unfolding names_synthesizer synthesizer_named
  unnamed x e = let h = rw e at other in ground arith

  get_node-finish :
      (o : Option SubTask) → u.synthesizer_node ≡ o → get_node (finish u o).graph i ≡ some node
  unfolding finish
  get_node-finish none e = found
  get_node-finish (some x) e =
      ground (arith, get_node-with_node_status_ne u x.node_id i running found (unnamed x e), found)

  get_node-after_completion :
      All (λ r. (r.node_id == i) ≡ false) (ready_nodes u (completed_node_ids u))
      → get_node (after_completion u).graph i ≡ some node
  unfolding after_completion
  get_node-after_completion apart = ground (
    arith,
    get_node-start_all u (ready_nodes u (completed_node_ids u)) i found apart,
    get_node-finish u.synthesizer_node refl,
    found,
  )

module _ (g : TaskGraph) (i : String) {node : SubTask} (found : get_node g i ≡ some node) where
  ready-apart_updated :
      (done : List String)
      → All (λ r. (r.node_id == i) ≡ false) (ready_nodes (with_node_status g i completed) done)
  unfolding ready_nodes with_node_status
  ready-apart_updated done = ready-apart i done g.nodes

  get_node-record_status :
      (s : SubTaskStatus)
      → get_node (record_status g i s).graph i ≡ some (record node { status = s })
  unfolding record_status
  get_node-record_status completed =
      let u = with_node_status g i completed in
      let settled = get_node-with_node_status_self g i completed found in
      elim (Bool-cases (names_synthesizer u i)) [
        | inl named ↦ rw named settled
        | inr other ↦ rw other (
            get_node-after_completion u i settled other
              (ready-apart_updated (completed_node_ids u)))
      ]
  get_node-record_status s = get_node-with_node_status_self g i s found

  get_node-advance_from :
      (s : SubTaskStatus)
      → get_node (advance_from g i s (some node)).graph i ≡ some (record node { status = s })
  unfolding advance_from
  get_node-advance_from s =
      ground (arith, get_node-record_status s, found, status_eq_iff node.status s)

-- Delivering the same completion again changes nothing and is reported as already processed: for
-- every graph, every node it holds and every status.
pub plan_advance-plan_advance :
    (g : TaskGraph) (i : String) (s : SubTaskStatus) (node : SubTask)
    → get_node g i ≡ some node
    → plan_advance (plan_advance g i s).graph i s
      ≡ record (only_graph (plan_advance g i s).graph) { already_processed = true }
unfolding plan_advance
plan_advance-plan_advance g i s node found =
    rw (found, get_node-advance_from g i found s) (unfold advance_from in rw (status_eq_refl s))
