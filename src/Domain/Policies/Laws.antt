-- ===== src/Domain/Policies/Laws.antt =====
-- The decisions of the policies.
use prism_agent.Prelude.{
  String, ◌≡◌, ◌↔◌, ◌∙◌, or_else, string_eq, refl, Bool, true, false, not, ◌||◌, Option, none, some,
  List, [], ◌∷◌, Dict, lookup, lookup-insert, lookup-nil, lookup-cons, lookup-absent, has_key,
  distinct_keys, ap, elem, all, if◌then◌else◌, ◌==◌, arith, eq_iff, Bool-cases, inl, inr,
}
use prism_agent.Domain.Events.{
  RuntimeEvent, EventKind, domain, scheduled, manual, agent_action, subagent_task,
  subagent_completed,
}
use prism_agent.Domain.Actions.{Version, tag, revision}
use prism_agent.Domain.Policies.{
  allowed_manual_triggers, allowed_domain_triggers, allowed_scheduled_triggers,
  ignored_low_value_triggers, terminal_event_types, kind_allows, decision, trigger_key_for,
  evaluate, ActionApprovalPolicy, requires_approval, should_auto_commit, version_eq, note_stale,
  diff_from, diff,
}

abbrev apart : List String → List String → Bool
apart xs ys = all (λ x. not (elem x ys)) xs

apart-elem :
    (i : String) (xs ys : List String) → apart xs ys ≡ true → elem i xs ≡ true → elem i ys ≡ false
apart-elem i [] ys a h = cc
apart-elem i (x ∷ xs) ys a h = elim (Bool-cases (x == i)) [
  | inl e ↦ rw (← (eq_iff x i).0 e) (ground (arith, a))
  | inr e ↦ apart-elem i xs ys (ground (arith, a)) (ground (arith, e, h))
]

abbrev pub is_agent_action : EventKind → Bool
is_agent_action (agent_action _ _) = true
is_agent_action _ = false

abbrev refused : String → Bool
refused i = elem i ignored_low_value_triggers || elem i terminal_event_types

refused-elem :
    (i : String) (allowed_triggers : List String)
    → apart allowed_triggers ignored_low_value_triggers ≡ true
    → apart allowed_triggers terminal_event_types ≡ true
    → elem i allowed_triggers ≡ true
    → (elem i ignored_low_value_triggers ≡ false) × (elem i terminal_event_types ≡ false)
refused-elem i l a b h =
    (apart-elem i l ignored_low_value_triggers a h, apart-elem i l terminal_event_types b h)

kind_allows-refused :
    (k : EventKind) (i : String)
    → is_agent_action k ≡ false
    → kind_allows k i ≡ true
    → (elem i ignored_low_value_triggers ≡ false) × (elem i terminal_event_types ≡ false)
unfolding kind_allows
kind_allows-refused domain i h = refused-elem i allowed_domain_triggers refl refl
kind_allows-refused (scheduled _) i h = refused-elem i allowed_scheduled_triggers refl refl
kind_allows-refused (manual _) i h = refused-elem i allowed_manual_triggers refl refl
kind_allows-refused _ i h = λ e. cc

decision-allowed :
    (low terminal allowed : Bool) (key : String)
    → (allowed ≡ true → (low ≡ false) × (terminal ≡ false))
    → (decision low terminal allowed key).allowed ≡ allowed
unfolding decision
decision-allowed false false allowed key h = refl
decision-allowed low terminal false key h = ground arith
decision-allowed low terminal true key h = ground (arith, h refl)

-- The events that start the agent, kind by kind: the two lists of events that never do count for agent
-- actions only.
abbrev pub admits : EventKind → String → Bool
admits (manual _) i = elem i allowed_manual_triggers
admits domain i = elem i allowed_domain_triggers
admits (scheduled _) i = elem i allowed_scheduled_triggers
admits (agent_action _ _) i = not (refused i)
admits (subagent_task _ _) i = false
admits (subagent_completed _ _ _) i = false

decision-admits :
    (k : EventKind) (i key : String)
    → (decision
        (elem i ignored_low_value_triggers)
        (elem i terminal_event_types)
        (kind_allows k i)
        key).allowed
      ≡ admits k i
unfolding kind_allows decision
decision-admits (agent_action _ _) i key = ground arith
decision-admits (manual q) i key =
    decision-allowed _ _ _ key (kind_allows-refused (manual q) i refl)
decision-admits domain i key = decision-allowed _ _ _ key (kind_allows-refused domain i refl)
decision-admits (scheduled q) i key =
    decision-allowed _ _ _ key (kind_allows-refused (scheduled q) i refl)
decision-admits (subagent_task _ _) i key = ground arith
decision-admits (subagent_completed _ _ _) i key = ground arith

-- For a manual, a domain or a scheduled event only the list of its kind decides; an agent action starts
-- the agent unless it is on the low-value or the terminal list; the events of subagents never do.
pub evaluate-allowed :
    (event : RuntimeEvent) → (evaluate event).allowed ≡ admits event.kind event.event_type
unfolding evaluate
evaluate-allowed event = decision-admits event.kind event.event_type (trigger_key_for event)

-- Exactly one of the two questions on a tool is answered by yes.
pub requires_approval-eq-not :
    (policy : ActionApprovalPolicy) (tool_name : String)
    → requires_approval policy tool_name ≡ not (should_auto_commit policy tool_name)
unfolding requires_approval should_auto_commit
requires_approval-eq-not policy tool_name = ground arith

pub version_eq_iff : (a b : Version) → (version_eq a b ≡ true) ↔ (a ≡ b)
unfolding version_eq
version_eq_iff (tag a) (tag b) = ground (arith, eq_iff a b)
version_eq_iff (revision a) (revision b) = ground arith
version_eq_iff (tag a) (revision b) = ground arith
version_eq_iff (revision a) (tag b) = ground arith

-- What is noted of an entity: the two versions, if a version was observed and it differs.
abbrev pub difference : Option Version → Option Version → Option (Version × Version)
difference (some expected) (some current) =
    if version_eq current expected then none else some (expected, current)
difference _ _ = none

lookup-note_stale :
    (k j : String) (e : Version) (o : Option Version) (stale : Dict String (Version × Version))
    → lookup k (note_stale j e o stale)
      ≡ (if j == k then or_else (difference (some e) o) (lookup k stale) else lookup k stale)
unfolding note_stale
lookup-note_stale k j e none stale = ground arith
lookup-note_stale k j e (some c) stale = ground (arith, lookup-insert j k (e, c) stale)

lookup-diff_from :
    (k : String) (stale : Dict String (Version × Version)) (expected current : Dict String Version)
    → distinct_keys expected ≡ true
    → lookup k (diff_from stale expected current)
      ≡ or_else (difference (lookup k expected) (lookup k current)) (lookup k stale)
unfolding diff_from
lookup-diff_from k stale [] current h = unfold lookup in refl
lookup-diff_from k stale ((j, e) ∷ rest) current h =
    let step = lookup-note_stale k j e (lookup j current) stale in
    let ih =
      lookup-diff_from k (note_stale j e (lookup j current) stale) rest current
        (ground (arith, h)) in
    ih
    ∙ ground (
      arith,
      step,
      lookup-cons k j e rest,
      lookup-absent k rest,
      eq_iff j k,
      ap (λ i. has_key i rest),
      h,
    )

-- An entity is reported as stale exactly when a version of it was observed and differs from the
-- expected one, and it is reported with these two versions.
pub lookup-diff :
    (k : String) (expected current : Dict String Version)
    → distinct_keys expected ≡ true
    → lookup k (diff expected current) ≡ difference (lookup k expected) (lookup k current)
unfolding diff
lookup-diff k expected current h =
    lookup-diff_from k [] expected current h ∙ ground (arith, lookup-nil {V = Version × Version} k)
