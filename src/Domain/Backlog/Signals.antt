-- ===== src/Domain/Backlog/Signals.antt =====
-- The loop over the items, signal by signal.
use prism_agent.Prelude.{
  String, ℕ, ◌≡◌, ◌∙◌, refl, sym, ap, not, Bool-cases, inl, inr, Option, none, some, List, [], ◌∷◌,
  ◌++◌, select,
}
use mathlib.Core.List.{append-nil, append_assoc}
use prism_agent.Domain.Json.{Json, Fields, get}
use prism_agent.Domain.Backlog.{
  Python, Found, nothing_found, dicts, add_if, examples, is_closed, stale_signal, overdue_signal,
  unassigned_urgent_signal, thin_description_signal, parent_mismatch_signal, scan, noted,
  compute_backlog_signals,
}

abbrev pub cons_if : Option Json → List Json → List Json
cons_if none rest = rest
cons_if (some entry) rest = entry ∷ rest

-- The entries of the items that have one, in order.
abbrev pub collect : (Fields → Option Json) → List Fields → List Json
collect signal [] = []
collect signal (item ∷ rest) = cons_if (signal item) (collect signal rest)

add_if-append : (o : Option Json) (xs ys : List Json) → add_if o xs ++ ys ≡ xs ++ cons_if o ys
add_if-append none xs ys = refl
add_if-append (some entry) xs ys = append_assoc xs (entry ∷ []) ys

module _ (python : Python) where
  abbrev pub open_items : List Fields → List Fields
  open_items items = select (λ item. not (is_closed python item)) items

  module _ (items : List Fields) (now : ℕ) where
    -- What is found, with the entries of more items after it.
    abbrev with_items : Found → List Fields → Found
    with_items found rest = record {
      stale = found.stale ++ collect (stale_signal python items now) rest;
      overdue = found.overdue ++ collect (overdue_signal python items now) rest;
      unassigned_urgent =
          found.unassigned_urgent ++ collect (unassigned_urgent_signal python items now) rest;
      thin_description =
          found.thin_description ++ collect (thin_description_signal python items now) rest;
      parent_mismatch =
          found.parent_mismatch ++ collect (parent_mismatch_signal python items now) rest;
    }

    with_items-nil : (found : Found) → with_items found [] ≡ found
    with_items-nil found =
        rw
          (
            append-nil found.stale,
            append-nil found.overdue,
            append-nil found.unassigned_urgent,
            append-nil found.thin_description,
            append-nil found.parent_mismatch,
          )
          refl

    with_items-noted :
        (found : Found) (item : Fields) (rest : List Fields)
        → with_items (noted python items now item found) rest ≡ with_items found (item ∷ rest)
    with_items-noted found item rest =
        rw
          (
            add_if-append (stale_signal python items now item) found.stale,
            add_if-append (overdue_signal python items now item) found.overdue,
            add_if-append (unassigned_urgent_signal python items now item) found.unassigned_urgent,
            add_if-append (thin_description_signal python items now item) found.thin_description,
            add_if-append (parent_mismatch_signal python items now item) found.parent_mismatch,
          )
          refl

    scan-with_items :
        (rest : List Fields) (found : Found)
        → scan python items now rest found ≡ with_items found (open_items rest)
    unfolding scan
    scan-with_items [] found = sym (with_items-nil found)
    scan-with_items (item ∷ rest) found = elim (Bool-cases (is_closed python item)) [
      | inl closed ↦ rw closed (scan-with_items rest found)
      | inr opened ↦ rw opened (
          scan-with_items rest (noted python items now item found)
          ∙ with_items-noted found item (open_items rest))
    ]

  -- The entries of a signal: those of the first fifteen open items that show it, in their order.
  abbrev pub Collects : Fields → String → (Fields → Option Json) → List Fields → Type 0
  Collects report key signal items =
      get report key ≡ some (examples (collect signal (open_items items)))

  -- A report holds, for each of the five signals, the entries of the first fifteen items, in their
  -- order, that are not closed and show the signal.
  pub compute_backlog_signals-Collects :
      (backlog_items member_workloads : List Json) (now : ℕ)
      → let report = compute_backlog_signals python backlog_items member_workloads now in
        let items = dicts backlog_items in
        Collects report "staleItems" (stale_signal python items now) items
        × Collects report "overdueItems" (overdue_signal python items now) items
        × Collects report "unassignedUrgentItems" (unassigned_urgent_signal python items now) items
        × Collects report "thinDescriptionItems" (thin_description_signal python items now) items
        × Collects report "closedParentWithOpenChildren"
            (parent_mismatch_signal python items now)
            items
  unfolding compute_backlog_signals get
  compute_backlog_signals-Collects backlog_items member_workloads now =
      let items = dicts backlog_items in
      let all = scan-with_items items now items nothing_found in
      (
        ap (λ found. some (examples found.stale)) all,
        ap (λ found. some (examples found.overdue)) all,
        ap (λ found. some (examples found.unassigned_urgent)) all,
        ap (λ found. some (examples found.thin_description)) all,
        ap (λ found. some (examples found.parent_mismatch)) all,
      )
