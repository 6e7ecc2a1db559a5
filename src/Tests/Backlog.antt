-- ===== src/Tests/Backlog.antt =====
-- A backlog with a stale item, which is thin and late, and an item that is done.
use prism_agent.Prelude.{
  ℕ, String, ◌≡◌, refl, Option, none, some, List, [], ◌∷◌, ◌==◌, if◌then◌else◌,
}
use prism_agent.Domain.Json.{
  Json, null, text, integer, array, object, nil, cons, Fields, end, field, get,
}
use prism_agent.Domain.Backlog.{
  Python, DateTime, naive, dicts, scan, parse_datetime, compute_backlog_signals,
}
use prism_agent.Domain.Backlog.Reports.{
  Names, passing, is_stale, is_overdue, is_unassigned, is_thin, is_left,
  compute_backlog_signals-Names,
}

abbrev read_time : String → Option DateTime
read_time t = if t == "1970-01-01" then some (naive 0) else none

abbrev python : Python
python = record {
  strip = λ t. t;
  replace = λ t old new. t;
  str = λ v. "None";
  fromisoformat = read_time;
  isoformat = λ t. "now";
}

abbrev backlog : List Json
backlog =
    object (
      field "itemId" (text "a") (
        field "status" (text "todo")
          (field "createdAt" (text "1970-01-01") (field "dueDate" (text "1970-01-01") end))))
    ∷ object (field "itemId" (text "b") (field "status" (text "done") end))
    ∷ []

abbrev now : ℕ
now = 1300000000000

compute_backlog_signals-Names_example :
    let report = compute_backlog_signals python backlog [] now in
    let items = dicts backlog in
    Names python report "staleItems" (passing python (is_stale python items now) items)
    × Names python report "overdueItems" (passing python (is_overdue python items now) items)
    × Names python report "unassignedUrgentItems"
        (passing python (is_unassigned python items now) items)
    × Names python report "thinDescriptionItems" (passing python (is_thin python items now) items)
    × Names python report "closedParentWithOpenChildren"
        (passing python (is_left python items now) items)
compute_backlog_signals-Names_example = compute_backlog_signals-Names python backlog [] now

abbrev entry : Fields → Json
entry more =
    object (field "itemId" (text "a") (field "title" null (field "status" (text "todo") more)))

stale_found :
    get (compute_backlog_signals python backlog [] now) "staleItems"
    ≡ some (array (cons (entry (field "daysIdle" (integer 15) end)) nil))
unfolding compute_backlog_signals scan parse_datetime get
stale_found = refl

nothing_urgent :
    get (compute_backlog_signals python backlog [] now) "unassignedUrgentItems" ≡ some (array nil)
unfolding compute_backlog_signals scan get
nothing_urgent = refl
