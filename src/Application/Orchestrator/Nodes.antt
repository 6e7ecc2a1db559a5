-- ===== src/Application/Orchestrator/Nodes.antt =====
-- The nodes that the orchestrator builds from their definitions.
use prism_agent.Prelude.{
  ℕ, ◌+◌, String, ◌≡◌, refl, ap, Bool, true, false, not, ◌&&◌, Option, none, some, List, [], ◌∷◌,
  map, all, any, elem, select, is_empty, All, arith, Bool-cases, inl, inr, ◌==◌,
}
use Prim.Native.String.{◌++◌}
use prism_agent.Prelude.Dependencies
use prism_agent.Prelude.Decimal.{decimal}
use prism_agent.Prelude.Fallible.{Fallible, ok, invalid}
use prism_agent.Capabilities.Definitions.{OrchestrationNodeDef, OrchestrationDef, skill_ids}
use prism_agent.Domain.Subtasks.{
  SubTask, SubTaskStatus, pending, completed, has_status, status_eq, is_ready, is_unblocked,
}
use prism_agent.Domain.Subtasks.Claims.{ids}
use prism_agent.Infrastructure.Registries.{WorkflowDefinition, SkillRegistry}
use prism_agent.Application.Orchestrator.{list_or_else, new_node, build_node, build_nodes}

abbrev pub has_skill : OrchestrationNodeDef → Bool
has_skill def = not (is_empty (skill_ids def))

abbrev pub synthesizer_has_skill : Option OrchestrationNodeDef → Bool
synthesizer_has_skill none = true
synthesizer_has_skill (some def) = has_skill def

-- The nodes and the synthesizer of an orchestration declare a skill each.
abbrev pub all_have_skill : OrchestrationDef → Bool
all_have_skill o = all has_skill o.default_graph && synthesizer_has_skill o.synthesizer

abbrev pub names : List OrchestrationNodeDef → List String
names = map (λ def. def.node)

abbrev pub is_independent : OrchestrationNodeDef → Bool
is_independent def = is_empty def.depends_on

all-elem_nil : (deps : List String) → all (λ d. elem d []) deps ≡ is_empty deps
all-elem_nil [] = refl
all-elem_nil (d ∷ deps) = refl

-- The nodes have names, and their declared dependencies have no cycle and name nodes.
pub record IsWellFormed (rank : String → ℕ) (defs : List OrchestrationNodeDef) : Type 0 where
  pub named : All (λ def. (def.node == "") ≡ false) defs
  pub ranked : Dependencies.IsRanked (λ def. def.node) (λ def. def.depends_on) rank defs
  pub closed : Dependencies.IsClosed (λ def. def.node) (λ def. def.depends_on) (names defs) defs

list_or_else-nil : (l : List String) → list_or_else l [] ≡ l
list_or_else-nil [] = refl
list_or_else-nil (x ∷ l) = refl

pub not-true : (b : Bool) → not b ≡ true → b ≡ false
not-true b h = ground (arith, h)

pub not-false : (b : Bool) → not b ≡ false → b ≡ true
not-false b h = ground (arith, h)

pub is_empty-ids : (nodes : List SubTask) → is_empty nodes ≡ false → is_empty (ids nodes) ≡ false
is_empty-ids [] h = h
is_empty-ids (node ∷ nodes) h = refl

-- The build raises `ValueError`.
abbrev pub Refused : {A : Type 0} → Fallible A → Type 0
Refused m = (message : String) × (m ≡ invalid message)

module _ (registry : Option SkillRegistry) (workflow : WorkflowDefinition) where
  unfoldable pub nodes_of : ℕ → List OrchestrationNodeDef → List SubTask
  nodes_of index [] = []
  nodes_of index (def ∷ defs) =
      new_node registry workflow def ("node_" ++ decimal index) [] ∷ nodes_of (index + 1) defs

  pub build_nodes-ok :
      (index : ℕ) (defs : List OrchestrationNodeDef)
      → all has_skill defs ≡ true
      → build_nodes registry workflow index defs ≡ ok (nodes_of index defs)
  unfolding build_nodes build_node nodes_of
  build_nodes-ok index [] h = refl
  build_nodes-ok index (def ∷ defs) h = elim (Bool-cases (is_empty (skill_ids def))) [
    | inl bare ↦ absurd (ground (arith, bare, h))
    | inr skilled ↦ rw (skilled, build_nodes-ok (index + 1) defs (ground (arith, h, skilled))) refl
  ]

  pub build_nodes-Refused :
      (index : ℕ) (defs : List OrchestrationNodeDef)
      → all has_skill defs ≡ false
      → Refused (build_nodes registry workflow index defs)
  unfolding build_nodes build_node
  build_nodes-Refused index [] h = absurd (ground (arith, h))
  build_nodes-Refused index (def ∷ defs) h = elim (Bool-cases (is_empty (skill_ids def))) [
    | inl bare ↦ rw bare (_, refl)
    | inr skilled ↦
        let (message, e) = build_nodes-Refused (index + 1) defs (ground (arith, h, skilled)) in
        rw (skilled, e) (message, refl)
  ]

  pub ids-nodes_of :
      (index : ℕ) (defs : List OrchestrationNodeDef)
      → All (λ def. (def.node == "") ≡ false) defs
      → ids (nodes_of index defs) ≡ names defs
  unfolding nodes_of new_node
  ids-nodes_of index [] named = refl
  ids-nodes_of index (def ∷ defs) named =
      rw named.0 (ap (λ l. def.node ∷ l) (ids-nodes_of (index + 1) defs named.1))

  -- What holds of the name and the declared dependencies of each definition holds of its node.
  pub All-nodes_of :
      (P : String → List String → Type 0) (index : ℕ) (defs : List OrchestrationNodeDef)
      → All (λ def. (def.node == "") ≡ false) defs
      → All (λ def. P def.node def.depends_on) defs
      → All (λ node. P node.node_id node.depends_on) (nodes_of index defs)
  unfolding nodes_of new_node
  All-nodes_of P index [] named h = tt
  All-nodes_of P index (def ∷ defs) named h =
      rw (named.0, list_or_else-nil def.depends_on)
        (h.0, All-nodes_of P (index + 1) defs named.1 h.1)

  pub nodes_of-unstarted :
      (s : SubTaskStatus)
      → status_eq pending s ≡ false
      → (index : ℕ) (defs : List OrchestrationNodeDef)
      → any (has_status s) (nodes_of index defs) ≡ false
  unfolding nodes_of new_node
  nodes_of-unstarted s h index [] = refl
  nodes_of-unstarted s h index (def ∷ defs) =
      ground (arith, h, nodes_of-unstarted s h (index + 1) defs)

  pub nodes_of-uncompleted :
      (defs : List OrchestrationNodeDef)
      → is_empty defs ≡ false
      → all (has_status completed) (nodes_of 0 defs) ≡ false
  unfolding nodes_of new_node
  nodes_of-uncompleted [] h = absurd (ground (arith, h))
  nodes_of-uncompleted (def ∷ defs) h = refl

  pub nodes_of-uncompleted_ids :
      (index : ℕ) (defs : List OrchestrationNodeDef)
      → ids (select (has_status completed) (nodes_of index defs)) ≡ []
  unfolding nodes_of new_node
  nodes_of-uncompleted_ids index [] = refl
  nodes_of-uncompleted_ids index (def ∷ defs) = nodes_of-uncompleted_ids (index + 1) defs

  pub nodes_of-ready :
      (index : ℕ) (defs : List OrchestrationNodeDef)
      → All (λ def. (def.node == "") ≡ false) defs
      → ids (select (is_ready []) (nodes_of index defs)) ≡ names (select is_independent defs)
  unfolding nodes_of new_node is_unblocked
  nodes_of-ready index [] named = refl
  nodes_of-ready index (def ∷ defs) named = elim (Bool-cases (is_empty def.depends_on)) [
    | inl free ↦
        rw (list_or_else-nil def.depends_on, all-elem_nil def.depends_on, free, named.0)
          (ap (λ l. def.node ∷ l) (nodes_of-ready (index + 1) defs named.1))
    | inr waits ↦
        rw (list_or_else-nil def.depends_on, all-elem_nil def.depends_on, waits)
          (nodes_of-ready (index + 1) defs named.1)
  ]
