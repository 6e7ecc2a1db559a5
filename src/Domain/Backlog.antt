-- ===== src/Domain/Backlog.antt =====
-- src/domain/backlog.py: the findings about a backlog. A time is the number of its microseconds.
pub mod Reports
pub mod Signals
use prism_agent.Prelude.{
  ℕ, zero, suc, ◌+◌, ◌-◌, String, Bool, true, false, not, ◌&&◌, ltb, leb, elem, Option, none, some,
  List, [], ◌∷◌, ◌++◌, if◌then◌else◌, ◌==◌,
}
use Prim.Native.Nat.{◌*◌, ◌/◌}
use Prim.Native.String.{count}
use prism_agent.Domain.Json.{
  Json, null, text, integer, array, object, Items, nil, cons, Fields, end, field, get, is_true,
  json_or,
}

abbrev pub stale_after_days : ℕ
stale_after_days = 14

abbrev pub thin_description_length : ℕ
thin_description_length = 30

abbrev pub overloaded_active_item_count : ℕ
overloaded_active_item_count = 8

abbrev pub max_signal_examples : ℕ
max_signal_examples = 15

abbrev pub open_statuses : List String
open_statuses = "todo" ∷ "in_progress" ∷ "in_review" ∷ []

abbrev pub closed_statuses : List String
closed_statuses = "done" ∷ "archived" ∷ []

abbrev microseconds_of_day : ℕ
microseconds_of_day = 86400000000

-- A time of the calendar without an offset, or with one, which is taken off.
pub data DateTime : Type 0 where
  naive : ℕ → DateTime
  aware : ℕ → DateTime

-- What Python does with texts and times: `str` is for a value that is no text.
pub record Python : Type 0 where
  pub strip : String → String
  pub replace : String → String → String → String
  pub str : Json → String
  pub fromisoformat : String → Option DateTime
  pub isoformat : ℕ → String

abbrev pub in_utc : Option DateTime → Option ℕ
in_utc none = none
in_utc (some (naive t)) = some t
in_utc (some (aware t)) = some t

-- `data.get(key)` as a value.
abbrev pub value_of : Option Json → Json
value_of none = null
value_of (some v) = v

abbrev pub dicts : List Json → List Fields
dicts [] = []
dicts (object item ∷ rest) = item ∷ dicts rest
dicts (_ ∷ rest) = dicts rest

abbrev pub add_if : Option Json → List Json → List Json
add_if none found = found
add_if (some entry) found = found ++ (entry ∷ [])

abbrev pub take : ℕ → List Json → List Json
take zero xs = []
take (suc n) [] = []
take (suc n) (x ∷ xs) = x ∷ take n xs

abbrev pub items_of : List Json → Items
items_of [] = nil
items_of (x ∷ xs) = cons x (items_of xs)

-- A reference to an item, with more fields.
abbrev pub item_ref : Fields → Fields → Json
item_ref item more = object (
    field "itemId" (value_of (get item "itemId")) (
      field "title" (value_of (get item "title"))
        (field "status" (value_of (get item "status")) more)))

pub record Found : Type 0 where
  pub stale : List Json
  pub overdue : List Json
  pub unassigned_urgent : List Json
  pub thin_description : List Json
  pub parent_mismatch : List Json

abbrev pub nothing_found : Found
nothing_found = record {
  stale = [];
  overdue = [];
  unassigned_urgent = [];
  thin_description = [];
  parent_mismatch = [];
}

abbrev or_earlier : Option Fields → Option Fields → Option Fields
or_earlier (some later) o = some later
or_earlier none o = o

abbrev overload : Option Json → Fields → List Json → List Json
overload (some (integer n)) workload rest =
    if leb overloaded_active_item_count n
    then object (
        field "username" (value_of (get workload "username"))
          (field "activeItemCount" (integer n) end))
      ∷ rest
    else rest
overload _ workload rest = rest

unfoldable pub overloaded : List Fields → List Json
overloaded [] = []
overloaded (workload ∷ rest) = overload (get workload "activeItemCount") workload (overloaded rest)

abbrev thresholds : Json
thresholds = object (
    field "staleAfterDays" (integer stale_after_days) (
      field "thinDescriptionLength" (integer thin_description_length)
        (field "overloadedActiveItemCount" (integer overloaded_active_item_count) end)))

abbrev pub examples : List Json → Json
examples found = array (items_of (take max_signal_examples found))

module _ (python : Python) where
  abbrev pub str_of : Json → String
  str_of (text t) = t
  str_of v = python.str v

  -- `str(item.get(key) or "")`
  abbrev pub text_of : Option Json → String
  text_of none = ""
  text_of (some v) = if is_true v then str_of v else ""

  -- `_parse_datetime`
  unfoldable pub parse_datetime : Option Json → Option ℕ
  parse_datetime none = none
  parse_datetime (some v) =
      if is_true v
      then in_utc (python.fromisoformat (python.replace (python.strip (str_of v)) "Z" "+00:00"))
      else none

  abbrev pub is_closed : Fields → Bool
  is_closed item = elem (text_of (get item "status")) closed_statuses

  abbrev pub named : String → Option Json → Fields → Option Fields
  named key none item = none
  named key (some v) item = if is_true v && (str_of v == key) then some item else none

  -- `by_id.get(key)`: the last of the items with that identifier.
  unfoldable pub by_id : List Fields → String → Option Fields
  by_id [] key = none
  by_id (item ∷ rest) key = or_earlier (by_id rest key) (named key (get item "itemId") item)

  module _ (items : List Fields) (now : ℕ) where
    abbrev pub idle_since : Fields → Option ℕ → Option Json
    idle_since item none = none
    idle_since item (some changed_at) =
        if ltb (changed_at + stale_after_days * microseconds_of_day) now
        then some (
            item_ref item
              (field "daysIdle" (integer ((now - changed_at) / microseconds_of_day)) end))
        else none

    abbrev pub stale_signal : Fields → Option Json
    stale_signal item =
        idle_since item
          (parse_datetime (json_or (get item "statusChangedAt") (get item "createdAt")))

    abbrev pub due_at : Fields → Option ℕ → Option Json
    due_at item none = none
    due_at item (some due_date) =
        if ltb due_date now
        then some
            (item_ref item (field "dueDate" (text (str_of (value_of (get item "dueDate")))) end))
        else none

    abbrev pub overdue_signal : Fields → Option Json
    overdue_signal item = due_at item (parse_datetime (get item "dueDate"))

    abbrev pub unassigned_urgent_signal : Fields → Option Json
    unassigned_urgent_signal item =
        if elem (text_of (get item "priority")) ("high" ∷ "urgent" ∷ [])
          && not (is_true (value_of (get item "assigneeUsernames")))
        then some (item_ref item (field "priority" (value_of (get item "priority")) end))
        else none

    abbrev pub thin_description_signal : Fields → Option Json
    thin_description_signal item =
        if ltb (count (python.strip (text_of (get item "description")))) thin_description_length
        then some (item_ref item end)
        else none

    abbrev pub parent_closed : Fields → Option Fields → Option Json
    parent_closed item none = none
    parent_closed item (some parent) =
        if is_closed parent
        then some (
            item_ref item (
              field "parentItemId" (value_of (get parent "itemId")) (
                field "parentTitle" (value_of (get parent "title"))
                  (field "parentStatus" (value_of (get parent "status")) end))))
        else none

    abbrev pub parent_mismatch_signal : Fields → Option Json
    parent_mismatch_signal item =
        parent_closed item (by_id items (str_of (value_of (get item "parentId"))))

    abbrev pub noted : Fields → Found → Found
    noted item found = record {
      stale = add_if (stale_signal item) found.stale;
      overdue = add_if (overdue_signal item) found.overdue;
      unassigned_urgent = add_if (unassigned_urgent_signal item) found.unassigned_urgent;
      thin_description = add_if (thin_description_signal item) found.thin_description;
      parent_mismatch = add_if (parent_mismatch_signal item) found.parent_mismatch;
    }

    -- The loop over the items.
    unfoldable pub scan : List Fields → Found → Found
    scan [] found = found
    scan (item ∷ rest) found = scan rest (if is_closed item then found else noted item found)

  unfoldable pub open_count : List Fields → ℕ
  open_count [] = 0
  open_count (item ∷ rest) =
      (if elem (text_of (get item "status")) open_statuses then 1 else 0) + open_count rest

  abbrev report : ℕ → ℕ → Found → List Json → Fields
  report now opened found members = field "computedAt" (text (python.isoformat now)) (
      field "thresholds" thresholds (
        field "openItemCount" (integer opened) (
          field "staleItems" (examples found.stale) (
            field "overdueItems" (examples found.overdue) (
              field "unassignedUrgentItems" (examples found.unassigned_urgent) (
                field "thinDescriptionItems" (examples found.thin_description) (
                  field "closedParentWithOpenChildren" (examples found.parent_mismatch)
                    (field "overloadedMembers" (array (items_of members)) end))))))))

  -- `now` is the time that is given, or that of the clock.
  unfoldable pub compute_backlog_signals : List Json → List Json → (now : ℕ) → Fields
  compute_backlog_signals backlog_items member_workloads now =
      let items = dicts backlog_items in
      report now (open_count items) (scan items now items nothing_found)
        (overloaded (dicts member_workloads))
