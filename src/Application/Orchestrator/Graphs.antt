-- ===== src/Application/Orchestrator/Graphs.antt =====
-- The graphs that the orchestrator builds.
use prism_agent.Prelude.{
  ℕ, ◌<◌, String, ◌≡◌, ◌∙◌, refl, ap, true, false, Option, none, some, List, [], ◌∷◌, all, elem,
  select, is_empty, All, arith, Bool-cases, inl, inr, ◌==◌,
}
use prism_agent.Prelude.Fallible.{ok}
use prism_agent.Capabilities.Definitions.{OrchestrationNodeDef, OrchestrationDef, skill_ids}
use prism_agent.Domain.Results.{AgentContext}
use prism_agent.Domain.Subtasks.{
  SubTask, TaskGraph, running, failed, claim_ready, ready_nodes, completed_node_ids,
}
use prism_agent.Domain.Subtasks.Claims.{ids, claim_ready_lem}
use prism_agent.Domain.Subtasks.Outcome.{IsAcyclic}
use prism_agent.Domain.Subtasks.Progress.{idle-all_completed}
use prism_agent.Infrastructure.Registries.{WorkflowDefinition, SkillRegistry}
use prism_agent.Application.Orchestrator.{
  new_graph, new_node, build_node, build_synthesizer, build_from, graph_of, orchestrated,
  build_orchestrated_graph, synthesizer_node_id,
}
use prism_agent.Application.Orchestrator.Nodes.{
  has_skill, synthesizer_has_skill, all_have_skill, names, is_independent, IsWellFormed, Refused,
  not-true, not-false, is_empty-ids, nodes_of, build_nodes-ok, build_nodes-Refused, ids-nodes_of,
  All-nodes_of, nodes_of-unstarted, nodes_of-uncompleted, nodes_of-uncompleted_ids, nodes_of-ready,
}

module _ (registry : Option SkillRegistry) (workflow : WorkflowDefinition) where
  module _ (fresh_id : String) (context : AgentContext) (o : OrchestrationDef) where
    synthesizer_of : List SubTask → Option OrchestrationNodeDef → Option SubTask
    synthesizer_of nodes none = none
    synthesizer_of nodes (some def) =
        some (new_node registry workflow def synthesizer_node_id (ids nodes))

    build_synthesizer-ok :
        (nodes : List SubTask) (def : Option OrchestrationNodeDef)
        → synthesizer_has_skill def ≡ true
        → build_synthesizer registry workflow def nodes ≡ ok (synthesizer_of nodes def)
    unfolding build_synthesizer build_node synthesizer_of
    build_synthesizer-ok nodes none h = refl
    build_synthesizer-ok nodes (some def) h = rw (not-true (is_empty (skill_ids def)) h) refl

    build_synthesizer-Refused :
        (nodes : List SubTask) (def : Option OrchestrationNodeDef)
        → synthesizer_has_skill def ≡ false
        → Refused (build_synthesizer registry workflow def nodes)
    unfolding build_synthesizer build_node
    build_synthesizer-Refused nodes none h = absurd (ground (arith, h))
    build_synthesizer-Refused nodes (some def) h =
        rw (not-false (is_empty (skill_ids def)) h) (_, refl)

    graph : TaskGraph
    graph =
        let nodes = nodes_of registry workflow 0 o.default_graph in
        new_graph fresh_id context nodes (synthesizer_of nodes o.synthesizer)

    build_from-ok :
        all_have_skill o ≡ true
        → build_from registry workflow fresh_id context o.default_graph o.synthesizer ≡ ok graph
    unfolding build_from graph
    build_from-ok h =
        rw
          (
            build_nodes-ok registry workflow 0 o.default_graph (ground (arith, h)),
            build_synthesizer-ok (nodes_of registry workflow 0 o.default_graph) o.synthesizer
                (ground (arith, h)),
          )
          refl

    build_from-Refused :
        all_have_skill o ≡ false
        → Refused (build_from registry workflow fresh_id context o.default_graph o.synthesizer)
    unfolding build_from
    build_from-Refused h = elim (Bool-cases (all has_skill o.default_graph)) [
      | inl skilled ↦
          let nodes = nodes_of registry workflow 0 o.default_graph in
          let (message, e) =
            build_synthesizer-Refused nodes o.synthesizer (ground (arith, skilled, h)) in
          rw (build_nodes-ok registry workflow 0 o.default_graph skilled, e) (message, refl)
      | inr bare ↦
          let (message, e) = build_nodes-Refused registry workflow 0 o.default_graph bare in
          rw e (message, refl)
    ]

    graph-IsAcyclic : (rank : String → ℕ) → IsWellFormed rank o.default_graph → IsAcyclic rank graph
    unfolding graph
    graph-IsAcyclic rank w =
        let known = names o.default_graph in
        let same = ids-nodes_of registry workflow 0 o.default_graph w.named in
        record {
          ranked =
              All-nodes_of registry workflow (λ i deps. All (λ d. rank d < rank i) deps) 0
                o.default_graph w.named w.ranked;
          closed = rw same (
              All-nodes_of registry workflow (λ i deps. All (λ d. elem d known ≡ true) deps) 0
                o.default_graph w.named w.closed);
        }

    graph-claims :
        (rank : String → ℕ)
        → is_empty o.default_graph ≡ false
        → IsAcyclic rank graph
        → is_empty (ids (claim_ready graph).1) ≡ false
    unfolding graph
    graph-claims rank some_node w =
        rw (claim_ready_lem graph).0
          (elim (Bool-cases (is_empty (ready_nodes graph (completed_node_ids graph)))) [
            | inl idle ↦ absurd (
                ground (
                  arith,
                  idle-all_completed rank graph w.ranked w.closed idle
                      (nodes_of-unstarted registry workflow running refl 0 o.default_graph)
                      (nodes_of-unstarted registry workflow failed refl 0 o.default_graph),
                  nodes_of-uncompleted registry workflow o.default_graph some_node,
                ))
            | inr some_ready ↦ is_empty-ids _ some_ready
          ])

    graph_of-nonempty :
        (defs : List OrchestrationNodeDef)
        → is_empty defs ≡ false
        → graph_of registry workflow fresh_id context defs o.synthesizer
          ≡ build_from registry workflow fresh_id context defs o.synthesizer
    graph_of-nonempty [] h = absurd (ground (arith, h))
    graph_of-nonempty (def ∷ defs) h = refl

    graph_of-ok :
        is_empty o.default_graph ≡ false
        → workflow.orchestration ≡ some o
        → build_orchestrated_graph registry workflow fresh_id context
          ≡ build_from registry workflow fresh_id context o.default_graph o.synthesizer
    unfolding build_orchestrated_graph
    graph_of-ok nonempty e =
        ap (λ x. orchestrated registry workflow fresh_id context x) e
        ∙ graph_of-nonempty o.default_graph nonempty

-- The graph of an orchestration whose nodes are named and declare skills: at first, the nodes that
-- declare no dependency are ready.
pub build_orchestrated_graph-ready :
    (registry : Option SkillRegistry) (workflow : WorkflowDefinition) (fresh_id : String)
    (context : AgentContext) (o : OrchestrationDef)
    → workflow.orchestration ≡ some o
    → is_empty o.default_graph ≡ false
    → All (λ def. (def.node == "") ≡ false) o.default_graph
    → all_have_skill o ≡ true
    → (g : TaskGraph) × (build_orchestrated_graph registry workflow fresh_id context ≡ ok g)
      × (g.workspace_id ≡ context.workspace_id)
      × (ids (ready_nodes g (completed_node_ids g)) ≡ names (select is_independent o.default_graph))
unfolding graph ready_nodes completed_node_ids
build_orchestrated_graph-ready registry workflow fresh_id context o e nonempty named skilled = (
  graph registry workflow fresh_id context o,
  graph_of-ok registry workflow fresh_id context o nonempty e
      ∙ build_from-ok registry workflow fresh_id context o skilled,
  refl,
  rw (nodes_of-uncompleted_ids registry workflow 0 o.default_graph)
      (nodes_of-ready registry workflow 0 o.default_graph named),
)

-- An orchestration that has nodes is refused with `ValueError` when one of them or the synthesizer
-- declares no skill.
pub build_orchestrated_graph-Refused :
    (registry : Option SkillRegistry) (workflow : WorkflowDefinition) (fresh_id : String)
    (context : AgentContext) (o : OrchestrationDef)
    → workflow.orchestration ≡ some o
    → is_empty o.default_graph ≡ false
    → all_have_skill o ≡ false
    → Refused (build_orchestrated_graph registry workflow fresh_id context)
build_orchestrated_graph-Refused registry workflow fresh_id context o e nonempty bad =
    rw (graph_of-ok registry workflow fresh_id context o nonempty e)
      (build_from-Refused registry workflow fresh_id context o bad)

-- An orchestration that has nodes, all of them named, with acyclic dependencies among them, and
-- that declares a skill for each node and for the synthesizer, is built as an acyclic graph with a
-- node for each definition, in which the first claim returns a node.
pub build_orchestrated_graph-starts :
    (registry : Option SkillRegistry) (workflow : WorkflowDefinition) (fresh_id : String)
    (context : AgentContext) (o : OrchestrationDef) (rank : String → ℕ)
    → workflow.orchestration ≡ some o
    → is_empty o.default_graph ≡ false
    → IsWellFormed rank o.default_graph
    → all_have_skill o ≡ true
    → (g : TaskGraph) × (build_orchestrated_graph registry workflow fresh_id context ≡ ok g)
      × IsAcyclic rank g
      × (ids g.nodes ≡ names o.default_graph)
      × (is_empty (ids (claim_ready g).1) ≡ false)
unfolding graph
build_orchestrated_graph-starts registry workflow fresh_id context o rank e nonempty w skilled =
    let acyclic = graph-IsAcyclic registry workflow fresh_id context o rank w in
    (
      graph registry workflow fresh_id context o,
      graph_of-ok registry workflow fresh_id context o nonempty e
          ∙ build_from-ok registry workflow fresh_id context o skilled,
      acyclic,
      ids-nodes_of registry workflow 0 o.default_graph w.named,
      graph-claims registry workflow fresh_id context o rank nonempty acyclic,
    )
