-- ===== src/Domain/Subtasks/Claims.antt =====
-- The nodes that a claim returns (`claim_ready`, and the claim inside `plan_advance`).
use prism_agent.Prelude.{
  String, ◌≡◌, ◌∙◌, refl, true, some, List, [], ◌∷◌, map, any, find?, is_some, All, All-impl,
  All-self, All-select, arith, eq_iff, eq_refl, if◌then◌else◌, Option-cases, inl, inr, ap,
}
use mathlib.Core.Option
use mathlib.Core.Path.{ap₂}
use mathlib.Core.List.{filter_map}
use prism_agent.Domain.Subtasks.{
  SubTask, TaskGraph, running, has_id, set_status, get_node, first_of_node, with_node_status,
  start_all, ready_nodes, current_nodes, claim_ready, is_ready, completed_node_ids,
}
use prism_agent.Domain.Subtasks.Status.{get_node-with_node_status, get_node-has_id}

-- What a lookup finds after a group of nodes was started.
pub get_node-start_all_eq :
    (g : TaskGraph) (ready : List SubTask) (i : String) {node : SubTask}
    → get_node g i ≡ some node
    → get_node (start_all g ready) i
      ≡ some (if any (has_id i) ready then record node { status = running } else node)
unfolding start_all
get_node-start_all_eq g [] i found = found
get_node-start_all_eq g (r ∷ ready) i {node} found =
    let step = get_node-with_node_status g r.node_id i running in
    let rest =
      get_node-start_all_eq (with_node_status g r.node_id running) ready i
        (step ∙ ap (Option.map (set_status r.node_id running)) found) in
    rest
    ∙ ap some (
        ground (
          arith,
          get_node-has_id g i found,
          eq_iff node.node_id i,
          eq_iff r.node_id i,
          eq_iff node.node_id r.node_id,
        ))

pub any_self : (ready : List SubTask) → All (λ r. any (has_id r.node_id) ready ≡ true) ready
any_self =
    All-self (λ r ready. any (has_id r.node_id) ready ≡ true)
      (λ x xs. ground (arith, eq_refl x.node_id)) (λ x y xs h. ground arith)

abbrev IsFound : TaskGraph → SubTask → Type 0
IsFound g r = is_some (get_node g r.node_id) ≡ true

find?-self :
    (nodes : List SubTask) → All (λ r. is_some (find? (has_id r.node_id) nodes) ≡ true) nodes
find?-self =
    All-self (λ r nodes. is_some (find? (has_id r.node_id) nodes) ≡ true)
      (λ x xs. ground (arith, eq_refl x.node_id)) (λ x y xs h. ground arith)

nodes-IsFound : (g : TaskGraph) → All (IsFound g) g.nodes
unfolding get_node first_of_node
nodes-IsFound g = All-impl _ _ g.nodes (λ r h. ground arith) (find?-self g.nodes)

ready-IsFound : (g : TaskGraph) (done : List String) → All (IsFound g) (ready_nodes g done)
unfolding ready_nodes
ready-IsFound g done = All-select (IsFound g) (is_ready done) g.nodes (nodes-IsFound g)

abbrev pub ids : List SubTask → List String
ids = map (λ node. node.node_id)

-- For a part of the group that is claimed, when the whole group has been started.
module _ (g : TaskGraph) (ready : List SubTask) where
  current_nodes-running :
      (part : List SubTask)
      → All (IsFound g) part
      → All (λ r. any (has_id r.node_id) ready ≡ true) part
      → All (λ r. r.status ≡ running) (current_nodes (start_all g ready) part)
  unfolding current_nodes filter_map
  current_nodes-running [] found named = tt
  current_nodes-running (r ∷ part) found named = elim (Option-cases (get_node g r.node_id)) [
    | inl missing ↦ absurd (ground (arith, found.0))
    | inr (node, e) ↦
        rw (get_node-start_all_eq g ready r.node_id e, named.0)
          (refl, current_nodes-running part found.1 named.1)
  ]

  current_nodes-ids :
      (part : List SubTask)
      → All (IsFound g) part
      → ids (current_nodes (start_all g ready) part) ≡ ids part
  unfolding current_nodes filter_map
  current_nodes-ids [] found = refl
  current_nodes-ids (r ∷ part) found = elim (Option-cases (get_node g r.node_id)) [
    | inl missing ↦ absurd (ground (arith, found.0))
    | inr (node, e) ↦
        let at = get_node-start_all_eq g ready r.node_id e in
        let named = get_node-has_id g r.node_id e in
        rw at
          (ap₂ ◌∷◌ (ground (arith, eq_iff node.node_id r.node_id)) (current_nodes-ids part found.1))
  ]

-- Starting a group of ready nodes returns each of them once, in order, under its name and running.
pub current_nodes-start_all :
    (g : TaskGraph) (done : List String)
    → (ids (current_nodes (start_all g (ready_nodes g done)) (ready_nodes g done))
        ≡ ids (ready_nodes g done))
      × All
          (λ r. r.status ≡ running)
          (current_nodes (start_all g (ready_nodes g done)) (ready_nodes g done))
current_nodes-start_all g done =
    let ready = ready_nodes g done in
    (
      current_nodes-ids g ready ready (ready-IsFound g done),
      current_nodes-running g ready ready (ready-IsFound g done) (any_self ready),
    )

-- A claim returns each ready node once, in order, under its name, and every returned node is running.
pub claim_ready_lem :
    (g : TaskGraph)
    → (ids (claim_ready g).1 ≡ ids (ready_nodes g (completed_node_ids g)))
      × All (λ r. r.status ≡ running) (claim_ready g).1
unfolding claim_ready
claim_ready_lem g = current_nodes-start_all g (completed_node_ids g)
