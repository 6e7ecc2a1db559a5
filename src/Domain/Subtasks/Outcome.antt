-- ===== src/Domain/Subtasks/Outcome.antt =====
-- What the outcome of `plan_advance` says about the run.
use prism_agent.Prelude.{
  ℕ, ◌<◌, String, ◌≡◌, ◌⊎◌, refl, true, false, Option, none, some, List, [], ◌∷◌, map, any, is_some,
  elem, All, arith, Option-cases, Bool-cases, inl, inr, is_empty, find?,
}
use mathlib.Core.Option
use prism_agent.Domain.Subtasks.{
  SubTask, TaskGraph, SubTaskStatus, pending, completed, failed, has_id, has_status, set_status,
  with_node_status, ready_nodes, status_eq, names_synthesizer, synthesizer_named, first_of_node,
  completed_node_ids, plan_advance, advance_from, record_status, after_completion, finish,
  all_nodes_completed, get_node,
}
use prism_agent.Domain.Subtasks.Status.{get_node-with_node_status_self}
use prism_agent.Domain.Subtasks.Claims.{ids}
use prism_agent.Domain.Subtasks.Progress.{IsRanked, IsClosed, idle-all_completed}

-- The dependencies of a graph are acyclic and name its nodes.
pub record IsAcyclic (rank : String → ℕ) (g : TaskGraph) : Type 0 where
  pub ranked : IsRanked rank g.nodes
  pub closed : IsClosed (ids g.nodes) g.nodes

ids-set_status :
    (i : String) (s : SubTaskStatus) (nodes : List SubTask)
    → ids (map (set_status i s) nodes) ≡ ids nodes
ids-set_status i s [] = refl
ids-set_status i s (n ∷ nodes) = ground (arith, ids-set_status i s nodes)

All-set_status :
    (P : String → List String → Type 0) (i : String) (s : SubTaskStatus) (nodes : List SubTask)
    → All (λ n. P n.node_id n.depends_on) nodes
    → All (λ n. P n.node_id n.depends_on) (map (set_status i s) nodes)
All-set_status P i s [] h = tt
All-set_status P i s (n ∷ nodes) h = elim (Bool-cases (has_id i n)) [
  | inl named ↦ rw named (h.0, All-set_status P i s nodes h.1)
  | inr other ↦ rw other (h.0, All-set_status P i s nodes h.1)
]

IsAcyclic-with_node_status :
    (rank : String → ℕ) (g : TaskGraph) (i : String) (s : SubTaskStatus)
    → IsAcyclic rank g
    → IsAcyclic rank (with_node_status g i s)
unfolding with_node_status
IsAcyclic-with_node_status rank g i s h = record {
  ranked = All-set_status (λ j deps. All (λ d. rank d < rank j) deps) i s g.nodes h.ranked;
  closed =
      rw (ids-set_status i s g.nodes) (
        All-set_status (λ j deps. All (λ d. elem d (ids g.nodes) ≡ true) deps) i s g.nodes
          h.closed);
}

finish-blocked : (g : TaskGraph) (o : Option SubTask) → (finish g o).blocked ≡ false
unfolding finish
finish-blocked g none = refl
finish-blocked g (some x) = ground arith

after_completion-blocked :
    (rank : String → ℕ) (g : TaskGraph)
    → IsAcyclic rank g
    → is_empty g.nodes ≡ false
    → (after_completion g).blocked ≡ true
    → any (has_status failed) (after_completion g).graph.nodes ≡ true
unfolding after_completion all_nodes_completed
after_completion-blocked rank g h nonempty blocked =
    ground (arith, finish-blocked g g.synthesizer_node, idle-all_completed rank g h.ranked h.closed)

-- A node that is found and is not the synthesizer stands among the nodes.
found-nonempty :
    (i : String) (nodes : List SubTask) (o : Option SubTask) {node : SubTask}
    → first_of_node (find? (has_id i) nodes) o ≡ some node
    → is_some o ≡ false
    → is_empty nodes ≡ false
unfolding first_of_node
found-nonempty i [] none found other = cc
found-nonempty i [] (some x) found other = cc
found-nonempty i (n ∷ nodes) o found other = refl

module _ (rank : String → ℕ) (g : TaskGraph) (acyclic : IsAcyclic rank g) (i : String)
    {node : SubTask} (found : get_node g i ≡ some node) where
  abbrev pub updated : TaskGraph
  updated = with_node_status g i completed

  pub updated-IsAcyclic : IsAcyclic rank updated
  updated-IsAcyclic = IsAcyclic-with_node_status rank g i completed acyclic

  pub updated-nonempty : names_synthesizer updated i ≡ false → is_empty updated.nodes ≡ false
  unfolding get_node names_synthesizer
  updated-nonempty other =
      found-nonempty i updated.nodes (synthesizer_named updated.synthesizer_node i)
        (get_node-with_node_status_self g i completed found) other

  record_status-blocked :
      (s : SubTaskStatus)
      → (record_status g i s).blocked ≡ true
      → any (has_status failed) (record_status g i s).graph.nodes ≡ true
  unfolding record_status
  record_status-blocked completed blocked = elim (Bool-cases (names_synthesizer updated i)) [
    | inl named ↦ absurd (ground (arith, named))
    | inr other ↦
        let open_case = rw other at blocked in
        rw other (
          after_completion-blocked rank updated updated-IsAcyclic (updated-nonempty other)
            open_case)
  ]
  record_status-blocked s blocked = cc

-- In a graph with acyclic dependencies between its nodes, a run is reported as blocked only if some
-- node has failed.
pub plan_advance-blocked :
    (rank : String → ℕ) (g : TaskGraph) (i : String) (s : SubTaskStatus)
    → IsAcyclic rank g
    → (plan_advance g i s).blocked ≡ true
    → any (has_status failed) (plan_advance g i s).graph.nodes ≡ true
unfolding plan_advance advance_from
plan_advance-blocked rank g i s acyclic blocked = elim (Option-cases (get_node g i)) [
  | inl missing ↦ absurd (ground (arith, missing))
  | inr (node, found) ↦
      let open_case = rw found at blocked in
      rw found (ground (arith, record_status-blocked rank g acyclic i found s, open_case))
]

-- A completed run: the synthesizer is completed, or there is none and every node is.
abbrev pub IsFinished : TaskGraph → Type 0
IsFinished g =
    ((x : SubTask) × (g.synthesizer_node ≡ some x) × (x.status ≡ completed))
    ⊎ ((g.synthesizer_node ≡ none) × (all_nodes_completed g ≡ true))

finish-run_completed :
    (g : TaskGraph) (o : Option SubTask)
    → g.synthesizer_node ≡ o
    → all_nodes_completed g ≡ true
    → (finish g o).run_completed ≡ true
    → IsFinished (finish g o).graph
unfolding finish
finish-run_completed g none e ended h = inr (e, ended)
finish-run_completed g (some x) e ended h = elim (Bool-cases (has_status pending x)) [
  | inl waits ↦ absurd (ground (arith, waits))
  | inr other ↦ elim (Bool-cases (has_status completed x)) [
    | inl done ↦ rw (other, done) (inl (x, e, ground arith))
    | inr open_case ↦ absurd (ground (arith, other, open_case))
  ]
]

after_completion-run_completed :
    (g : TaskGraph)
    → (after_completion g).run_completed ≡ true
    → IsFinished (after_completion g).graph
unfolding after_completion
after_completion-run_completed g h =
    elim (Bool-cases (is_empty (ready_nodes g (completed_node_ids g)))) [
      | inr busy ↦ absurd (ground (arith, busy))
      | inl idle ↦ elim (Bool-cases (all_nodes_completed g)) [
        | inl ended ↦
            let reported = rw (idle, ended) at h in
            rw (idle, ended) (finish-run_completed g g.synthesizer_node refl ended reported)
        | inr unended ↦ absurd (ground (arith, idle, unended))
      ]
    ]

named-completed :
    (i : String) (o : Option SubTask)
    → is_some (synthesizer_named (Option.map (set_status i completed) o) i) ≡ true
    → (x : SubTask) × (Option.map (set_status i completed) o ≡ some x) × (x.status ≡ completed)
unfolding synthesizer_named
named-completed i none h = absurd (ground arith)
named-completed i (some x) h = (set_status i completed x, refl, ground arith)

record_status-run_completed :
    (g : TaskGraph) (i : String) (s : SubTaskStatus)
    → (record_status g i s).run_completed ≡ true
    → IsFinished (record_status g i s).graph
unfolding record_status
record_status-run_completed g i completed h =
    let u = with_node_status g i completed in
    elim (Bool-cases (names_synthesizer u i)) [
      | inl named ↦ rw named (
          inl (
            unfold names_synthesizer with_node_status in
            named-completed i g.synthesizer_node named))
      | inr other ↦
          let reported = rw other at h in rw other (after_completion-run_completed u reported)
    ]
record_status-run_completed g i s h = cc

-- A run is reported as completed only when its synthesizer is completed, or when it has none and
-- every node is completed.
pub plan_advance-run_completed :
    (g : TaskGraph) (i : String) (s : SubTaskStatus)
    → (plan_advance g i s).run_completed ≡ true
    → IsFinished (plan_advance g i s).graph
unfolding plan_advance advance_from
plan_advance-run_completed g i s h = elim (Option-cases (get_node g i)) [
  | inl missing ↦ absurd (ground (arith, missing))
  | inr (node, found) ↦
      let reported = rw found at h in
      elim (Bool-cases (status_eq node.status s)) [
        | inl same ↦ absurd (ground (arith, found, same))
        | inr fresh ↦
            let recorded = rw fresh at reported in
            rw (found, fresh) (record_status-run_completed g i s recorded)
      ]
]
