-- ===== src/Domain/Subtasks/Dispatch.antt =====
-- How often a node can be dispatched (`claim_ready`, `plan_advance`), over any history of a graph.
use prism_agent.Prelude.{
  ℕ, ◌+◌, ◌≤◌, String, ◌≡◌, refl, Bool, true, false, ◌&&◌, Option, none, some, List, [], ◌∷◌, ◌++◌,
  map, any, count, count-append, select, arith, ◌==◌, eq_iff, eq_refl, if◌then◌else◌, Option-cases,
  Bool-cases, inl, inr, ap, is_empty,
}
use mathlib.Core.Option
use mathlib.Core.List.{append-nil}
use prism_agent.Domain.Subtasks.{
  SubTask, TaskGraph, TaskGraphAdvance, SubTaskStatus, pending, running, completed, failed, has_id,
  has_status, set_status, with_node_status, start_all, ready_nodes, claim_ready, is_ready,
  status_eq, completed_node_ids, plan_advance, advance_from, record_status, after_completion,
  finish, get_node,
}
use prism_agent.Domain.Subtasks.Claims.{ids, current_nodes-start_all}

-- The calls that the runtime makes on a graph: the first claim, and the end of a node.
pub data Call : Type 0 where
  claim : Call
  settle : (node_id : String) (succeeded : Bool) → Call

abbrev pub terminal : Bool → SubTaskStatus
terminal true = completed
terminal false = failed

abbrev pub option_list {ℓ} : {A : Type ℓ} → Option A → List A
option_list none = []
option_list (some a) = a ∷ []

-- The names of the nodes that the coordinator dispatches for an outcome.
abbrev pub dispatched_by : TaskGraphAdvance → List String
dispatched_by a = ids a.newly_ready ++ ids (option_list a.dispatch_synthesizer)

unfoldable pub step : TaskGraph → Call → TaskGraph × List String
step g claim = let (started, claimed) = claim_ready g in (started, ids claimed)
step g (settle i succeeded) =
    let a = plan_advance g i (terminal succeeded) in (a.graph, dispatched_by a)

-- Every name that is dispatched over a history of calls.
unfoldable pub dispatched : TaskGraph → List Call → List String
dispatched g [] = []
dispatched g (c ∷ calls) = (step g c).1 ++ dispatched (step g c).0 calls

abbrev is_pending : String → SubTask → Bool
is_pending i node = has_id i node && has_status pending node

-- The pending nodes of a name, the synthesizer among them.
abbrev pub pending_count : String → TaskGraph → ℕ
pending_count i g =
    count (is_pending i) g.nodes + count (is_pending i) (option_list g.synthesizer_node)

abbrev occurrences : String → List String → ℕ
occurrences i = count (λ j. j == i)

abbrev StaysStarted : SubTaskStatus → Type 0
StaysStarted s = status_eq s pending ≡ false

module _ (i j : String) (s : SubTaskStatus) (started : StaysStarted s) where
  count-set_status :
      (nodes : List SubTask)
      → count (is_pending i) (map (set_status j s) nodes)
        ≡ (if j == i then 0 else count (is_pending i) nodes)
  count-set_status [] = ground arith
  count-set_status (node ∷ nodes) =
      ground
        (arith, count-set_status nodes, eq_iff node.node_id j, eq_iff node.node_id i, eq_iff j i)

  count-map_option :
      (o : Option SubTask)
      → count (is_pending i) (option_list (Option.map (set_status j s) o))
        ≡ (if j == i then 0 else count (is_pending i) (option_list o))
  count-map_option none = ground arith
  count-map_option (some node) = count-set_status (node ∷ [])

  -- An update to a started status leaves no pending node of that name, and the others as they were.
  pending_count-with_node_status :
      (g : TaskGraph)
      → pending_count i (with_node_status g j s) ≡ (if j == i then 0 else pending_count i g)
  unfolding with_node_status
  pending_count-with_node_status g =
      ground (arith, count-set_status g.nodes, count-map_option g.synthesizer_node)

pending_count-start_all :
    (i : String) (g : TaskGraph) (ready : List SubTask)
    → pending_count i (start_all g ready) ≡ (if any (has_id i) ready then 0 else pending_count i g)
unfolding start_all
pending_count-start_all i g [] = refl
pending_count-start_all i g (r ∷ ready) = ground (
  arith,
  pending_count-start_all i (with_node_status g r.node_id running) ready,
  pending_count-with_node_status i r.node_id running refl g,
)

occurrences-any :
    (i : String) (ready : List SubTask)
    → any (has_id i) ready ≡ false
    → occurrences i (ids ready) ≡ 0
occurrences-any i [] h = refl
occurrences-any i (r ∷ ready) h = ground (arith, occurrences-any i ready)

occurrences-select :
    (i : String) (done : List String) (nodes : List SubTask)
    → occurrences i (ids (select (is_ready done) nodes)) ≤ count (is_pending i) nodes
occurrences-select i done [] = omega arith
occurrences-select i done (node ∷ nodes) = ground (arith, occurrences-select i done nodes)

pub synthesizer-started :
    (g : TaskGraph) (x : SubTask)
    → g.synthesizer_node ≡ some x
    → (with_node_status g x.node_id running).synthesizer_node ≡ some (record x { status = running })
unfolding with_node_status
synthesizer-started g x e = rw e (ground (arith, eq_refl x.node_id))

-- Dispatches never outnumber the pending nodes that they use up.
abbrev Spends : String → TaskGraph → TaskGraph → List String → Type 0
Spends i g g' names = occurrences i names + pending_count i g' ≤ pending_count i g

module _ (i : String) where
  start-Spends :
      (g : TaskGraph) (done : List String)
      → Spends i g (start_all g (ready_nodes g done)) (ids (ready_nodes g done))
  unfolding ready_nodes
  start-Spends g done =
      let ready = select (is_ready done) g.nodes in
      ground (
        arith,
        pending_count-start_all i g ready,
        occurrences-any i ready,
        occurrences-select i done g.nodes,
      )

  claim-Spends : (g : TaskGraph) → Spends i g (claim_ready g).0 (ids (claim_ready g).1)
  unfolding claim_ready
  claim-Spends g =
      let done = completed_node_ids g in rw (current_nodes-start_all g done).0 (start-Spends g done)

  finish-Spends :
      (g : TaskGraph) (o : Option SubTask)
      → g.synthesizer_node ≡ o
      → Spends i g (finish g o).graph (dispatched_by (finish g o))
  unfolding finish
  finish-Spends g none e = omega arith
  finish-Spends g (some x) e =
      let counted = ap (λ o. count (is_pending i) (option_list o)) e in
      elim (Bool-cases (has_status pending x)) [
        | inl waits ↦ rw waits (
            ground (
              arith,
              counted,
              waits,
              pending_count-with_node_status i x.node_id running refl g,
              ap (λ o. occurrences i (ids (option_list o))) (synthesizer-started g x e),
            ))
        | inr started ↦ rw started (ground arith)
      ]

  after_completion-Spends :
      (g : TaskGraph) → Spends i g (after_completion g).graph (dispatched_by (after_completion g))
  unfolding after_completion
  after_completion-Spends g =
      let done = completed_node_ids g in
      elim (Bool-cases (is_empty (ready_nodes g done))) [
        | inl idle ↦ rw idle (ground (arith, finish-Spends g g.synthesizer_node refl))
        | inr busy ↦ rw (busy, (current_nodes-start_all g done).0, append-nil) (start-Spends g done)
      ]

  record_status-Spends :
      (g : TaskGraph) (j : String) (succeeded : Bool)
      → Spends i g
          (record_status g j (terminal succeeded)).graph
          (dispatched_by (record_status g j (terminal succeeded)))
  unfolding record_status
  record_status-Spends g j false = ground (arith, pending_count-with_node_status i j failed refl g)
  record_status-Spends g j true = ground (
    arith,
    pending_count-with_node_status i j completed refl g,
    after_completion-Spends (with_node_status g j completed),
  )

  plan_advance-Spends :
      (g : TaskGraph) (j : String) (succeeded : Bool)
      → Spends i g
          (plan_advance g j (terminal succeeded)).graph
          (dispatched_by (plan_advance g j (terminal succeeded)))
  unfolding plan_advance advance_from
  plan_advance-Spends g j succeeded = elim (Option-cases (get_node g j)) [
    | inl missing ↦ rw missing (omega arith)
    | inr (node, found) ↦ rw found (ground (arith, record_status-Spends g j succeeded))
  ]

  step-Spends : (g : TaskGraph) (c : Call) → Spends i g (step g c).0 (step g c).1
  unfolding step
  step-Spends g claim = claim-Spends g
  step-Spends g (settle j succeeded) = plan_advance-Spends g j succeeded

-- Over any history of claims and completions, duplicated and contradictory ones included, a name
-- is dispatched at most as often as nodes of that name were pending at the start.
pub dispatched-le-pending_count :
    (i : String) (g : TaskGraph) (calls : List Call)
    → count (λ j. j == i) (dispatched g calls) ≤ pending_count i g
unfolding dispatched
dispatched-le-pending_count i g [] = omega arith
dispatched-le-pending_count i g (c ∷ calls) = omega (
  arith,
  count-append (λ j. j == i) (step g c).1 (dispatched (step g c).0 calls),
  step-Spends i g c,
  dispatched-le-pending_count i (step g c).0 calls,
)
