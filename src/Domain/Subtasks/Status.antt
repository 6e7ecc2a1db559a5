-- ===== src/Domain/Subtasks/Status.antt =====
-- What a lookup of a node finds after status updates (`get_node`, `with_node_status`).
use prism_agent.Prelude.{
  ◌↔◌, String, ◌≡◌, refl, true, false, Option, none, some, List, [], ◌∷◌, map, find?, All, arith,
  ◌==◌, eq_iff,
}
use mathlib.Core.Option
use prism_agent.Domain.Subtasks.{
  SubTask, TaskGraph, SubTaskStatus, pending, running, completed, failed, status_eq, has_id,
  set_status, get_node, with_node_status, start_all, synthesizer_named, first_of_node,
}

pub status_eq_iff : (s t : SubTaskStatus) → (status_eq s t ≡ true) ↔ (s ≡ t)
status_eq_iff pending t = ground arith
status_eq_iff running t = ground arith
status_eq_iff completed t = ground arith
status_eq_iff failed t = ground arith

pub status_eq_refl : (s : SubTaskStatus) → status_eq s s ≡ true
status_eq_refl pending = refl
status_eq_refl running = refl
status_eq_refl completed = refl
status_eq_refl failed = refl

find?-map :
    (i j : String) (s : SubTaskStatus) (nodes : List SubTask)
    → find? (has_id j) (map (set_status i s) nodes)
      ≡ Option.map (set_status i s) (find? (has_id j) nodes)
find?-map i j s [] = refl
find?-map i j s (node ∷ nodes) = ground (arith, find?-map i j s nodes)

synthesizer_named-map :
    (i j : String) (s : SubTaskStatus) (o : Option SubTask)
    → synthesizer_named (Option.map (set_status i s) o) j
      ≡ Option.map (set_status i s) (synthesizer_named o j)
unfolding synthesizer_named
synthesizer_named-map i j s none = refl
synthesizer_named-map i j s (some node) = ground arith

first_of_node-map :
    (f : SubTask → SubTask) (a b : Option SubTask)
    → first_of_node (Option.map f a) (Option.map f b) ≡ Option.map f (first_of_node a b)
unfolding first_of_node
first_of_node-map f none b = refl
first_of_node-map f (some a) b = refl

-- An update changes what a lookup finds by `set_status`, and never whether it finds a node.
pub get_node-with_node_status :
    (g : TaskGraph) (i j : String) (s : SubTaskStatus)
    → get_node (with_node_status g i s) j ≡ Option.map (set_status i s) (get_node g j)
get_node-with_node_status g i j s =
    unfold get_node with_node_status in
    rw (find?-map i j s g.nodes, synthesizer_named-map i j s g.synthesizer_node)
      (first_of_node-map (set_status i s) (find? (has_id j) g.nodes)
        (synthesizer_named g.synthesizer_node j))

find?-has_id :
    (i : String) (nodes : List SubTask) {node : SubTask}
    → find? (has_id i) nodes ≡ some node
    → has_id i node ≡ true
find?-has_id i [] h = cc
find?-has_id i (x ∷ nodes) {node} h =
    ground (arith, λ (e : find? (has_id i) nodes ≡ some node). find?-has_id i nodes e)

first_of_node-has_id :
    (i : String) (a o : Option SubTask) {node : SubTask}
    → (a ≡ some node → has_id i node ≡ true)
    → first_of_node a (synthesizer_named o i) ≡ some node
    → has_id i node ≡ true
unfolding first_of_node synthesizer_named
first_of_node-has_id i (some x) o k h = k h
first_of_node-has_id i none none k h = cc
first_of_node-has_id i none (some x) k h = ground arith

-- A lookup finds a node of the name asked for.
pub get_node-has_id :
    (g : TaskGraph) (i : String) {node : SubTask} → get_node g i ≡ some node → has_id i node ≡ true
unfolding get_node
get_node-has_id g i h =
    first_of_node-has_id i (find? (has_id i) g.nodes) g.synthesizer_node
      (λ e. find?-has_id i g.nodes e) h

-- Updates of other nodes are not seen.
pub get_node-with_node_status_ne :
    (g : TaskGraph) (i j : String) (s : SubTaskStatus) {node : SubTask}
    → get_node g j ≡ some node
    → (i == j) ≡ false
    → get_node (with_node_status g i s) j ≡ some node
get_node-with_node_status_ne g i j s {node} h ne =
    rw (get_node-with_node_status g i j s, h)
      (ground
        (arith, get_node-has_id g j h, eq_iff node.node_id j, eq_iff i j, eq_iff node.node_id i))

pub get_node-with_node_status_self :
    (g : TaskGraph) (i : String) (s : SubTaskStatus) {node : SubTask}
    → get_node g i ≡ some node
    → get_node (with_node_status g i s) i ≡ some (record node { status = s })
get_node-with_node_status_self g i s {node} h =
    rw (get_node-with_node_status g i i s, h) (ground (arith, get_node-has_id g i h))

pub get_node-start_all :
    (g : TaskGraph) (ready : List SubTask) (i : String) {node : SubTask}
    → get_node g i ≡ some node
    → All (λ r. (r.node_id == i) ≡ false) ready
    → get_node (start_all g ready) i ≡ some node
unfolding start_all
get_node-start_all g [] i h apart = h
get_node-start_all g (r ∷ ready) i h apart =
    get_node-start_all (with_node_status g r.node_id running) ready i
      (get_node-with_node_status_ne g r.node_id i running h apart.0) apart.1
