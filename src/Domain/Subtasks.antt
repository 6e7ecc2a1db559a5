-- ===== src/Domain/Subtasks.antt =====
-- src/domain/subtasks.py: the graph of subagent nodes of one run.
pub mod Status
pub mod Idempotence
pub mod Claims
pub mod Dispatch
pub mod Progress
pub mod Outcome
pub mod InFlight
use prism_agent.Prelude.{
  ℕ, ◌+◌, String, Bool, true, false, ◌&&◌, not, Option, none, some, List, [], ◌∷◌, map, all, any,
  find?, select, is_empty, elem, is_some, if◌then◌else◌, ◌==◌,
}
use mathlib.Core.Option
use prism_agent.Domain.Json.{Fields}
use mathlib.Core.List.{filter_map}

pub data SubTaskStatus : Type 0 where
  pending running completed failed : SubTaskStatus

abbrev pub status_eq : SubTaskStatus → SubTaskStatus → Bool
status_eq pending pending = true
status_eq running running = true
status_eq completed completed = true
status_eq failed failed = true
status_eq _ _ = false

pub record SubTask : Type 0 where
  pub node_id : String
  pub skill_ids : List String
  pub objective : String
  pub depends_on : List String
  pub context_scope : List String
  pub model_tier : String
  pub status : SubTaskStatus

-- `set(self.depends_on) <= completed`
unfoldable pub is_unblocked : SubTask → List String → Bool
is_unblocked node done = all (λ d. elem d done) node.depends_on

pub record TaskGraph : Type 0 where
  pub plan_id : String
  pub workspace_id : String
  pub project_id : Option String
  pub context_snapshot_ref : Option String
  pub version : ℕ
  pub nodes : List SubTask
  pub synthesizer_node : Option SubTask

pub record SubAgentResult : Type 0 where
  pub node_id : String
  pub skill_ids : List String
  pub summary : String
  pub structured_output : Fields
  pub status : SubTaskStatus

pub record TaskGraphAdvance : Type 0 where
  pub graph : TaskGraph
  pub newly_ready : List SubTask
  pub dispatch_synthesizer : Option SubTask
  pub run_completed : Bool
  pub run_failed : Bool
  pub blocked : Bool
  pub is_synthesizer : Bool
  pub already_processed : Bool

-- The outcome with the defaults of every field but the graph.
abbrev pub only_graph : TaskGraph → TaskGraphAdvance
only_graph g = record {
  graph = g;
  newly_ready = [];
  dispatch_synthesizer = none;
  run_completed = false;
  run_failed = false;
  blocked = false;
  is_synthesizer = false;
  already_processed = false;
}

unfoldable pub bumped : TaskGraph → TaskGraph
bumped g = record g { version = g.version + 1 }

abbrev pub has_id : String → SubTask → Bool
has_id i node = node.node_id == i

abbrev pub has_status : SubTaskStatus → SubTask → Bool
has_status s node = status_eq node.status s

-- The synthesizer, if it has the identifier.
unfoldable pub synthesizer_named : Option SubTask → String → Option SubTask
synthesizer_named none i = none
synthesizer_named (some node) i = if has_id i node then some node else none

unfoldable pub first_of_node : Option SubTask → Option SubTask → Option SubTask
first_of_node (some node) o = some node
first_of_node none o = o

unfoldable pub get_node : TaskGraph → String → Option SubTask
get_node g i = first_of_node (find? (has_id i) g.nodes) (synthesizer_named g.synthesizer_node i)

abbrev pub set_status : String → SubTaskStatus → SubTask → SubTask
set_status i s node = if has_id i node then record node { status = s } else node

unfoldable pub with_node_status : TaskGraph → String → SubTaskStatus → TaskGraph
with_node_status g i s = record g {
  nodes = map (set_status i s) g.nodes;
  synthesizer_node = Option.map (set_status i s) g.synthesizer_node;
}

unfoldable pub all_nodes_completed : TaskGraph → Bool
all_nodes_completed g = not (is_empty g.nodes) && all (has_status completed) g.nodes

unfoldable pub names_synthesizer : TaskGraph → String → Bool
names_synthesizer g i = is_some (synthesizer_named g.synthesizer_node i)

unfoldable pub completed_node_ids : TaskGraph → List String
completed_node_ids g = map (λ node. node.node_id) (select (has_status completed) g.nodes)

abbrev pub is_ready : List String → SubTask → Bool
is_ready done node = has_status pending node && is_unblocked node done

unfoldable pub ready_nodes : TaskGraph → List String → List SubTask
ready_nodes g done = select (is_ready done) g.nodes

-- `for node in ready: graph = graph.with_node_status(node.node_id, RUNNING)`
unfoldable pub start_all : TaskGraph → List SubTask → TaskGraph
start_all g [] = g
start_all g (node ∷ ready) = start_all (with_node_status g node.node_id running) ready

-- `[graph.get_node(node.node_id) for node in ready]`. Each node is found (`Claims` below), so
-- `None` never enters the list.
unfoldable pub current_nodes : TaskGraph → List SubTask → List SubTask
current_nodes g ready = filter_map (λ node. get_node g node.node_id) ready

unfoldable pub claim_ready : TaskGraph → TaskGraph × List SubTask
claim_ready g =
    let ready = ready_nodes g (completed_node_ids g) in
    let started = start_all g ready in (started, current_nodes started ready)

-- The end of `plan_advance`, when every node is completed.
unfoldable pub finish : TaskGraph → Option SubTask → TaskGraphAdvance
finish g none = record (only_graph g) { run_completed = true }
finish g (some synthesizer) =
    if has_status pending synthesizer
    then (let started = with_node_status g synthesizer.node_id running in
        record (only_graph started) { dispatch_synthesizer = started.synthesizer_node })
    else if not (has_status completed synthesizer)
    then only_graph g
    else record (only_graph g) { run_completed = true }

-- What follows the completion of a node that is not the synthesizer.
unfoldable pub after_completion : TaskGraph → TaskGraphAdvance
after_completion g =
    let ready = ready_nodes g (completed_node_ids g) in
    let started = start_all g ready in
    if not (is_empty ready)
    then record (only_graph started) { newly_ready = current_nodes started ready }
    else if all_nodes_completed g
    then finish g g.synthesizer_node
    else if any (has_status running) g.nodes
    then only_graph g
    else record (only_graph g) { blocked = true }

unfoldable pub record_status : TaskGraph → String → SubTaskStatus → TaskGraphAdvance
record_status g i s =
    let updated = with_node_status g i s in
    if status_eq s failed
    then record (only_graph updated) { run_failed = true }
    else if not (status_eq s completed)
    then only_graph updated
    else if names_synthesizer updated i
    then record (only_graph updated) { is_synthesizer = true; run_completed = true }
    else after_completion updated

unfoldable pub advance_from : TaskGraph → String → SubTaskStatus → Option SubTask → TaskGraphAdvance
advance_from g i s none = only_graph g
advance_from g i s (some node) =
    if status_eq node.status s
    then record (only_graph g) { already_processed = true }
    else record_status g i s

unfoldable pub plan_advance : TaskGraph → String → SubTaskStatus → TaskGraphAdvance
plan_advance g i s = advance_from g i s (get_node g i)
