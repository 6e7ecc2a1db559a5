-- ===== src/Application/ContextProvider/Scopes.antt =====
-- The entities that a workflow asks for, and the diff of a pull request.
use prism_agent.Prelude.{
  String, ◌≡◌, ◌∙◌, refl, ap, Bool, true, false, ◌&&◌, ◌||◌, Option, none, some, List, [], ◌∷◌, any,
  elem, is_empty, select, arith, Bool-cases, inl, inr, ◌⊎◌, if◌then◌else◌, eq_iff, ◌==◌,
}
use prism_agent.Capabilities.Definitions.{OrchestrationNodeDef, OrchestrationDef}
use prism_agent.Domain.Json.{Json, object, Fields}
use prism_agent.Domain.Events.{RuntimeEvent}
use prism_agent.Infrastructure.Registries.{WorkflowDefinition}
use prism_agent.Application.Effects.{
  Outside, Runtime, Action, Answer, answered, raised, fetch_json, Result, return, pure, outside,
  try_except, ◌>>=◌,
}
use prism_agent.Application.ContextProvider.{
  context_nodes, with_synthesizer, scoped, wants_all, in_scope_of, required_context, inject_diff,
  fetch_diff, fetch_and_inject, follow_pointer, resolve_diff_pointer, either,
}

elem-select :
    (p : String → Bool) (t : String) (l : List String) → elem t (select p l) ≡ (elem t l && p t)
elem-select p t [] = refl
elem-select p t (x ∷ l) = elim (Bool-cases (x == t)) [
  | inl same ↦
      let moved = ap p ((eq_iff x t).0 same) in
      elim (Bool-cases (p x)) [
        | inl kept ↦ rw kept (ground (arith, same, kept, moved, elem-select p t l))
        | inr dropped ↦ rw dropped (ground (arith, same, dropped, moved, elem-select p t l))
      ]
  | inr other ↦ elim (Bool-cases (p x)) [
    | inl kept ↦ rw kept (ground (arith, other, elem-select p t l))
    | inr dropped ↦ rw dropped (ground (arith, other, elem-select p t l))
  ]
]

-- A node that wants an entity has it in its scope, or has no scope.
abbrev pub is_wanted : String → OrchestrationNodeDef → Bool
is_wanted entity node = is_empty node.context_scope || elem entity node.context_scope

abbrev wanted_by : String → Option OrchestrationNodeDef → Bool
wanted_by entity none = false
wanted_by entity (some node) = is_wanted entity node

-- An orchestration without nodes wants every entity, and so does a workflow without orchestration.
abbrev pub wanted : String → Option OrchestrationDef → Bool
wanted entity none = true
wanted entity (some o) =
    is_empty o.default_graph
    || any (is_wanted entity) o.default_graph
    || wanted_by entity o.synthesizer

any-is_wanted :
    (entity : String) (nodes : List OrchestrationNodeDef)
    → any (is_wanted entity) nodes ≡ (any wants_all nodes || any (in_scope_of entity) nodes)
any-is_wanted entity [] = refl
any-is_wanted entity (node ∷ nodes) = ground (arith, any-is_wanted entity nodes)

any-with_synthesizer :
    (entity : String) (nodes : List OrchestrationNodeDef) (o : Option OrchestrationNodeDef)
    → any (is_wanted entity) (with_synthesizer nodes o)
      ≡ (any (is_wanted entity) nodes || wanted_by entity o)
any-with_synthesizer entity nodes none = ground arith
any-with_synthesizer entity [] (some node) = ground arith
any-with_synthesizer entity (x ∷ nodes) (some node) =
    ground (arith, any-with_synthesizer entity nodes (some node))

is_empty-with_synthesizer :
    (nodes : List OrchestrationNodeDef) (o : Option OrchestrationNodeDef)
    → is_empty nodes ≡ false
    → is_empty (with_synthesizer nodes o) ≡ false
is_empty-with_synthesizer [] o h = absurd (ground (arith, h))
is_empty-with_synthesizer (x ∷ nodes) none h = refl
is_empty-with_synthesizer (x ∷ nodes) (some node) h = refl

elem-scoped :
    (entity : String) (nodes : List OrchestrationNodeDef) (declared : List String)
    → elem entity (scoped nodes declared) ≡ (elem entity declared && any (is_wanted entity) nodes)
elem-scoped entity nodes declared =
    let kept = elem-select (λ e. any (in_scope_of e) nodes) entity declared in
    let split = any-is_wanted entity nodes in
    elim (Bool-cases (any wants_all nodes)) [
      | inl all ↦ rw all (ground (arith, all, split))
      | inr narrow ↦ rw narrow (ground (arith, narrow, split, kept))
    ]

-- A declared entity is asked for exactly when the workflow has no orchestration with nodes, or when a
-- node of its orchestration or the synthesizer has the entity in its scope or has no scope. Nothing
-- else is asked for.
pub required_context_lem :
    (workflow : WorkflowDefinition) (declared : List String) (entity : String)
    → elem entity (required_context workflow declared)
      ≡ (elem entity declared && wanted entity workflow.orchestration)
unfolding required_context
required_context_lem workflow declared entity = asked workflow.orchestration
  where
    asked :
        (o : Option OrchestrationDef)
        → elem entity (
            let nodes = context_nodes o in
            if is_empty nodes then declared else scoped nodes declared)
          ≡ (elem entity declared && wanted entity o)
    asked none = ground arith
    asked (some o) = elim (Bool-cases (is_empty o.default_graph)) [
      | inl bare ↦ rw bare (ground arith)
      | inr graph ↦
          rw (graph, is_empty-with_synthesizer o.default_graph o.synthesizer graph)
            (elem-scoped entity (with_synthesizer o.default_graph o.synthesizer) declared
              ∙ ap (λ b. elem entity declared && b)
                  (any-with_synthesizer entity o.default_graph o.synthesizer))
    ]

-- The event, with a payload of its own.
abbrev pub with_payload : RuntimeEvent → Fields → RuntimeEvent
with_payload event payload = record event { payload = payload }

abbrev IsSafe : RuntimeEvent → Result RuntimeEvent → Type 0
IsSafe event result = (payload : Fields) × (result ≡ return (with_payload event payload))

inject_diff-IsSafe :
    (event : RuntimeEvent) (blob : Fields) (v : Option Json)
    → IsSafe event (return (inject_diff event blob v))
unfolding inject_diff
inject_diff-IsSafe event blob none = (event.payload, refl)
inject_diff-IsSafe event blob (some (object pull_request)) = (_, refl)
inject_diff-IsSafe event blob (some _) = (event.payload, refl)

Answer-cases :
    {A : Type 0} (a : Answer A)
    → ((x : A) × (a ≡ answered x)) ⊎ ((message : String) × (a ≡ raised message))
Answer-cases (answered x) = inl (x, refl)
Answer-cases (raised message) = inr (message, refl)

-- Whatever the state, the action ends in such an event.
abbrev AlwaysSafe : RuntimeEvent → Action RuntimeEvent → Type 0
AlwaysSafe event m = (s : Runtime) → IsSafe event (m s).0

AlwaysSafe-pure : (event : RuntimeEvent) → AlwaysSafe event (pure event)
unfolding pure
AlwaysSafe-pure event s = (event.payload, refl)

AlwaysSafe-if :
    (event : RuntimeEvent) (b : Bool) (m n : Action RuntimeEvent)
    → AlwaysSafe event m
    → AlwaysSafe event n
    → AlwaysSafe event (if b then m else n)
AlwaysSafe-if event true m n hm hn = hm
AlwaysSafe-if event false m n hm hn = hn

module _ (world : Outside) where
  fetched-AlwaysSafe :
      (event : RuntimeEvent) (name : Json) → AlwaysSafe event (fetch_and_inject world event name)
  unfolding fetch_and_inject fetch_diff try_except outside pure ◌>>=◌
  fetched-AlwaysSafe event name s =
      let call =
        fetch_json name (either event.payload "diffObjectVersionId" "diff_object_version_id") in
      elim (Answer-cases (world.blob s.calls call)) [
        | inl (blob, e) ↦ rw e (inject_diff-IsSafe event blob _)
        | inr (message, e) ↦ rw e (event.payload, refl)
      ]

  follow_pointer-AlwaysSafe :
      (event : RuntimeEvent) (pointer : Option Json)
      → AlwaysSafe event (follow_pointer world event pointer)
  unfolding follow_pointer
  follow_pointer-AlwaysSafe event none = AlwaysSafe-pure event
  follow_pointer-AlwaysSafe event (some name) =
      AlwaysSafe-if event _ _ _ (AlwaysSafe-pure event) (fetched-AlwaysSafe event name)

  -- The pointer to a diff never stops a run: whatever the payload holds and the object storage answers,
  -- the resolution does not raise, and it changes nothing of the event but its payload.
  pub resolve_diff_pointer-returns :
      (event : RuntimeEvent) (required : List String) (s : Runtime)
      → (payload : Fields) × ((resolve_diff_pointer world event required s).0
          ≡ return (with_payload event payload))
  unfolding resolve_diff_pointer
  resolve_diff_pointer-returns event required =
      AlwaysSafe-if event _ _ _ (follow_pointer-AlwaysSafe event _) (AlwaysSafe-pure event)
