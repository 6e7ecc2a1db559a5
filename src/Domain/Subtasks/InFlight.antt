-- ===== src/Domain/Subtasks/InFlight.antt =====
-- After a completion a run is over or something is still running (`plan_advance`).
use prism_agent.Prelude.{
  ℕ, String, ◌≡◌, ◌⊎◌, refl, Bool, true, false, ◌||◌, Option, none, some, List, [], ◌∷◌, map, any,
  all, All, All-select, arith, Bool-cases, inl, inr, ap, is_empty,
}
use prism_agent.Domain.Subtasks.{
  SubTask, TaskGraph, TaskGraphAdvance, pending, running, completed, failed, has_id, has_status,
  set_status, with_node_status, start_all, ready_nodes, is_ready, names_synthesizer,
  completed_node_ids, plan_advance, advance_from, record_status, after_completion, finish,
  all_nodes_completed, get_node,
}
use prism_agent.Domain.Subtasks.Claims.{any_self}
use prism_agent.Domain.Subtasks.Dispatch.{option_list, synthesizer-started}
use prism_agent.Domain.Subtasks.Progress.{idle-all_completed}
use prism_agent.Domain.Subtasks.Outcome.{IsAcyclic, updated-IsAcyclic, updated-nonempty}

-- A node, the synthesizer included, that is running: its task or its completion is still to come.
abbrev pub some_running : TaskGraph → Bool
some_running g =
    any (has_status running) g.nodes || any (has_status running) (option_list g.synthesizer_node)

abbrev pub some_failed : TaskGraph → Bool
some_failed g =
    any (has_status failed) g.nodes || any (has_status failed) (option_list g.synthesizer_node)

any-set_status :
    (i : String) (nodes : List SubTask)
    → (any (has_id i) nodes || any (has_status running) nodes) ≡ true
    → any (has_status running) (map (set_status i running) nodes) ≡ true
any-set_status i [] h = h
any-set_status i (n ∷ nodes) h = ground (arith, any-set_status i nodes)

start_all-keeps_running :
    (g : TaskGraph) (ready : List SubTask)
    → any (has_status running) g.nodes ≡ true
    → any (has_status running) (start_all g ready).nodes ≡ true
unfolding start_all
start_all-keeps_running g [] h = h
start_all-keeps_running g (r ∷ ready) h =
    start_all-keeps_running (with_node_status g r.node_id running) ready
      (unfold with_node_status in any-set_status r.node_id g.nodes (ground (arith, h)))

start_all-running :
    (g : TaskGraph) (ready : List SubTask)
    → All (λ r. any (has_id r.node_id) g.nodes ≡ true) ready
    → is_empty ready ≡ false
    → any (has_status running) (start_all g ready).nodes ≡ true
unfolding start_all
start_all-running g [] listed h = cc
start_all-running g (r ∷ ready) listed h =
    start_all-keeps_running (with_node_status g r.node_id running) ready
      (unfold with_node_status in any-set_status r.node_id g.nodes (ground (arith, listed.0)))

abbrev GoesOn : TaskGraphAdvance → Type 0
GoesOn a = (a.run_completed ≡ true) ⊎ (some_running a.graph ≡ true)

finish-GoesOn :
    (g : TaskGraph) (o : Option SubTask)
    → g.synthesizer_node ≡ o
    → any (has_status failed) (option_list o) ≡ false
    → GoesOn (finish g o)
unfolding finish
finish-GoesOn g none e h = inl refl
finish-GoesOn g (some x) e h = elim (Bool-cases (has_status pending x)) [
  | inl waits ↦ rw waits (
      inr (
        ground
          (arith, ap (λ o. any (has_status running) (option_list o)) (synthesizer-started g x e))))
  | inr other ↦ elim (Bool-cases (has_status completed x)) [
    | inl done ↦ rw (other, done) (inl refl)
    | inr open_case ↦
        rw (other, open_case)
          (inr (
            ground (arith, other, open_case, ap (λ o. any (has_status running) (option_list o)) e)))
  ]
]

after_completion-GoesOn :
    (rank : String → ℕ) (g : TaskGraph)
    → IsAcyclic rank g
    → is_empty g.nodes ≡ false
    → some_failed g ≡ false
    → GoesOn (after_completion g)
unfolding after_completion all_nodes_completed
after_completion-GoesOn rank g acyclic nonempty unfailed =
    let ready = ready_nodes g (completed_node_ids g) in
    elim (Bool-cases (is_empty ready)) [
      | inr busy ↦ rw busy (
          inr (
            ground (
              arith,
              start_all-running g ready
                  (unfold ready_nodes in
                    All-select _ (is_ready (completed_node_ids g)) g.nodes (any_self g.nodes))
                  busy,
            )))
      | inl idle ↦ elim (Bool-cases (all (has_status completed) g.nodes)) [
        | inl ended ↦
            rw (idle, nonempty, ended)
              (finish-GoesOn g g.synthesizer_node refl (ground (arith, unfailed)))
        | inr unended ↦ elim (Bool-cases (any (has_status running) g.nodes)) [
          | inl busy ↦ rw (idle, nonempty, unended, busy) (inr (ground (arith, busy)))
          | inr still ↦ absurd (
              ground (
                arith,
                unended,
                idle-all_completed rank g acyclic.ranked acyclic.closed idle still,
                unfailed,
              ))
        ]
      ]
    ]

-- When a running node completes in a graph with acyclic dependencies in which nothing has failed,
-- the run is completed or a node is running: no run is left with nothing to wait for.
pub plan_advance-GoesOn :
    (rank : String → ℕ) (g : TaskGraph) (i : String) (node : SubTask)
    → IsAcyclic rank g
    → get_node g i ≡ some node
    → node.status ≡ running
    → some_failed (with_node_status g i completed) ≡ false
    → ((plan_advance g i completed).run_completed ≡ true)
      ⊎ (some_running (plan_advance g i completed).graph ≡ true)
unfolding plan_advance advance_from record_status
plan_advance-GoesOn rank g i node acyclic found running_node unfailed =
    let u = with_node_status g i completed in
    elim (Bool-cases (names_synthesizer u i)) [
      | inl named ↦ rw (found, running_node, named) (inl refl)
      | inr other ↦
          rw (found, running_node, other)
            (after_completion-GoesOn rank u (updated-IsAcyclic rank g acyclic i found)
              (updated-nonempty rank g acyclic i found other) unfailed)
    ]
