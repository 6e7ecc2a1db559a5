-- ===== src/Domain/Backlog/Reports.antt =====
-- Which items each list of a report names.
use prism_agent.Prelude.{
  ℕ, zero, suc, ◌+◌, ◌<◌, String, ◌≡◌, ◌∙◌, ◌⊎◌, refl, sym, ap, Bool, true, false, not, ◌&&◌, ◌||◌,
  ltb, Bool-cases, inl, inr, Option, none, some, List, [], ◌∷◌, ◌++◌, map, length, select, arith,
  if◌then◌else◌, ◌==◌,
}
use Prim.Native.String.{count}
use prism_agent.Domain.Json.{Json, null, array, object, Fields, get, is_true, json_or}
use prism_agent.Domain.Backlog.{
  Python, dicts, take, items_of, value_of, text_of, str_of, parse_datetime, is_closed, by_id,
  idle_since, due_at, parent_closed, unassigned_urgent_signal, thin_description_signal,
  compute_backlog_signals,
}
use prism_agent.Domain.Backlog.Signals.{
  cons_if, collect, open_items, Collects, compute_backlog_signals-Collects,
}

abbrev pub id_of : Fields → Json
id_of item = value_of (get item "itemId")

-- The item that an entry names.
abbrev pub named_by : Json → Json
named_by (object entry) = value_of (get entry "itemId")
named_by _ = null

-- A signal is an entry that names the item, if the item shows it.
abbrev Shows : Option Json → Bool → Json → Type 0
Shows o shown i =
    ((o ≡ none) × (shown ≡ false))
    ⊎ ((entry : Json) × (o ≡ some entry) × (shown ≡ true) × (named_by entry ≡ i))

if-Shows :
    (test shown : Bool) (entry i : Json)
    → test ≡ shown
    → named_by entry ≡ i
    → Shows (if test then some entry else none) shown i
if-Shows true shown entry i same named = inr (entry, refl, sym same, named)
if-Shows false shown entry i same named = inl (refl, sym same)

map-append : (xs ys : List Json) → map named_by (xs ++ ys) ≡ map named_by xs ++ map named_by ys
map-append [] ys = refl
map-append (x ∷ xs) ys = ap (λ l. named_by x ∷ l) (map-append xs ys)

take-split :
    (n : ℕ) (xs : List Json)
    → (rest : List Json) × (take n xs ++ rest ≡ xs)
      × ((length (take n xs) ≡ n) ⊎ ((length (take n xs) < n) × (rest ≡ [])))
take-split zero xs = (xs, refl, inl refl)
take-split (suc n) [] = ([], refl, inr (omega arith, refl))
take-split (suc n) (x ∷ xs) =
    let (rest, split, few) = take-split n xs in
    (
      rest,
      ap (λ l. x ∷ l) split,
      elim few [ inl full ↦ inl (ap suc full) | inr (less, all) ↦ inr (omega (arith, less), all) ],
    )

module _ (python : Python) where
  abbrev pub status_of : Fields → String
  status_of item = text_of python (get item "status")

  abbrev pub is_over : Fields → Bool
  is_over item = "done" == status_of item || "archived" == status_of item

  module _ (items : List Fields) (now : ℕ) where
    -- A time that is more than fourteen days ago.
    abbrev long_ago : Option ℕ → Bool
    long_ago none = false
    long_ago (some t) = ltb (t + 1209600000000) now

    abbrev past : Option ℕ → Bool
    past none = false
    past (some t) = ltb t now

    abbrev over : Option Fields → Bool
    over none = false
    over (some parent) = is_over parent

    abbrev pub is_stale : Fields → Bool
    is_stale item =
        long_ago
          (parse_datetime python (json_or (get item "statusChangedAt") (get item "createdAt")))

    abbrev pub is_overdue : Fields → Bool
    is_overdue item = past (parse_datetime python (get item "dueDate"))

    abbrev pub is_unassigned : Fields → Bool
    is_unassigned item =
        ("high" == text_of python (get item "priority")
          || "urgent" == text_of python (get item "priority"))
        && not (is_true (value_of (get item "assigneeUsernames")))

    abbrev pub is_thin : Fields → Bool
    is_thin item = ltb (count (python.strip (text_of python (get item "description")))) 30

    abbrev pub is_left : Fields → Bool
    is_left item = over (by_id python items (str_of python (value_of (get item "parentId"))))

    idle_since-Shows :
        (item : Fields) (t : Option ℕ)
        → Shows (idle_since python items now item t) (long_ago t) (id_of item)
    unfolding get
    idle_since-Shows item none = inl (refl, refl)
    idle_since-Shows item (some t) = if-Shows _ _ _ _ refl refl

    due_at-Shows :
        (item : Fields) (t : Option ℕ)
        → Shows (due_at python items now item t) (past t) (id_of item)
    unfolding get
    due_at-Shows item none = inl (refl, refl)
    due_at-Shows item (some t) = if-Shows _ _ _ _ refl refl

    unassigned-Shows :
        (item : Fields)
        → Shows (unassigned_urgent_signal python items now item) (is_unassigned item) (id_of item)
    unfolding get
    unassigned-Shows item = if-Shows _ _ _ _ (ground arith) refl

    thin-Shows :
        (item : Fields)
        → Shows (thin_description_signal python items now item) (is_thin item) (id_of item)
    unfolding get
    thin-Shows item = if-Shows _ _ _ _ refl refl

    parent-Shows :
        (item : Fields) (parent : Option Fields)
        → Shows (parent_closed python items now item parent) (over parent) (id_of item)
    unfolding get
    parent-Shows item none = inl (refl, refl)
    parent-Shows item (some parent) = if-Shows _ _ _ _ (ground arith) refl

  -- The items that are not over and pass a test.
  abbrev pub passing : (Fields → Bool) → List Fields → List Fields
  passing test items = select (λ item. not (is_over item) && test item) items

  module _ (signal : Fields → Option Json) (test : Fields → Bool)
      (shows : (item : Fields) → Shows (signal item) (test item) (id_of item)) where
    ids-cons_if :
        (o : Option Json) (shown : Bool) (item : Fields) (rest : List Json)
        → Shows o shown (id_of item)
        → map named_by (cons_if o rest)
          ≡ (if shown then id_of item ∷ map named_by rest else map named_by rest)
    ids-cons_if o shown item rest (inl (absent, hidden)) = rw (absent, hidden) refl
    ids-cons_if o shown item rest (inr (entry, there, seen, named)) =
        rw (there, seen) (ap (λ i. i ∷ map named_by rest) named)

    ids-collect :
        (items : List Fields)
        → map named_by (collect signal (open_items python items)) ≡ map id_of (passing test items)
    ids-collect [] = refl
    ids-collect (item ∷ items) = elim (Bool-cases (is_over item)) [
      | inl over ↦
          let closed : is_closed python item ≡ true = ground (arith, over) in
          rw (over, closed) (ids-collect items)
      | inr goes_on ↦
          let opened : is_closed python item ≡ false = ground (arith, goes_on) in
          rw (goes_on, opened)
            (ids-cons_if (signal item) (test item) item _ (shows item)
              ∙ (elim (Bool-cases (test item)) [
                | inl passes ↦ rw passes (ap (λ l. id_of item ∷ l) (ids-collect items))
                | inr fails ↦ rw fails (ids-collect items)
              ]))
    ]

  -- The entry of a report under a key names the items of a list, in order: all of them if they are fewer
  -- than fifteen, and otherwise the first fifteen.
  abbrev pub Names : Fields → String → List Fields → Type 0
  Names report key found =
      (entries : List Json) × (get report key ≡ some (array (items_of entries)))
      × (rest : List Json) × (map named_by entries ++ rest ≡ map id_of found)
      × ((length entries ≡ 15) ⊎ ((length entries < 15) × (rest ≡ [])))

  Collects-Names :
      (report : Fields) (key : String) (signal : Fields → Option Json) (test : Fields → Bool)
      (items : List Fields)
      → ((item : Fields) → Shows (signal item) (test item) (id_of item))
      → Collects python report key signal items
      → Names report key (passing test items)
  Collects-Names report key signal test items shows there =
      let found = collect signal (open_items python items) in
      let (rest, split, few) = take-split 15 found in
      (
        take 15 found,
        there,
        map named_by rest,
        sym (map-append (take 15 found) rest)
            ∙ ap (map named_by) split
            ∙ ids-collect signal test shows items,
        elim few [ inl full ↦ inl full | inr (less, all) ↦ inr (less, ap (map named_by) all) ],
      )

  -- A report names, in each of its five lists, the first items of the backlog, fifteen at most and in
  -- their order, that are neither done nor archived and: have the same status for more than fourteen
  -- days, by the time of its change or else of the creation; are past their due date; are of high or
  -- urgent priority and have nobody assigned; have a description of less than thirty characters; have
  -- a parent that is done or archived.
  pub compute_backlog_signals-Names :
      (backlog_items member_workloads : List Json) (now : ℕ)
      → let report = compute_backlog_signals python backlog_items member_workloads now in
        let items = dicts backlog_items in
        Names report "staleItems" (passing (is_stale items now) items)
        × Names report "overdueItems" (passing (is_overdue items now) items)
        × Names report "unassignedUrgentItems" (passing (is_unassigned items now) items)
        × Names report "thinDescriptionItems" (passing (is_thin items now) items)
        × Names report "closedParentWithOpenChildren" (passing (is_left items now) items)
  compute_backlog_signals-Names backlog_items member_workloads now =
      let items = dicts backlog_items in
      let (stale, overdue, unassigned, thin, left) =
        compute_backlog_signals-Collects python backlog_items member_workloads now in
      (
        Collects-Names _ _ _ _ items (λ item. idle_since-Shows items now item _) stale,
        Collects-Names _ _ _ _ items (λ item. due_at-Shows items now item _) overdue,
        Collects-Names _ _ _ _ items (unassigned-Shows items now) unassigned,
        Collects-Names _ _ _ _ items (thin-Shows items now) thin,
        Collects-Names _ _ _ _ items (λ item. parent-Shows items now item _) left,
      )
