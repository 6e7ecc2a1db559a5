-- ===== src/Infrastructure/Registries/Lookups.antt =====
-- What the registries find after a registration.
use prism_agent.Prelude.{
  String, Bool, false, ◌||◌, ◌≡◌, refl, some, List, [], ◌∷◌, ◌++◌, Dict, arith, lookup,
  lookup-insert, lookup-insert_self, insert, elem, any, if◌then◌else◌, Bool-cases, inl, inr, eq_iff,
  string_eq,
}
use prism_agent.Prelude.Fallible.{ok}
use prism_agent.Capabilities.Definitions.{SkillPromptDefinition}
use prism_agent.Infrastructure.Registries.{
  WorkflowDefinition, WorkflowRegistry, bind_triggers, register_workflow, get_workflow,
  get_by_trigger, add_new, collect_tools, SkillRegistry, select_skills, allowed_tools_for,
}

lookup-bind_triggers :
    (w : WorkflowDefinition) (triggers : List String) (d : Dict String WorkflowDefinition)
    (t : String)
    → lookup t (bind_triggers w triggers d) ≡ (if elem t triggers then some w else lookup t d)
unfolding bind_triggers
lookup-bind_triggers w [] d t = refl
lookup-bind_triggers w (x ∷ triggers) d t =
    ground (arith, lookup-bind_triggers w triggers (insert x w d) t, lookup-insert x t w d)

-- A registered workflow is found by its identifier and by each of its triggers, and every other
-- trigger finds what it found before.
pub get_by_trigger-register_workflow :
    (w : WorkflowDefinition) (r r' : WorkflowRegistry) (t : String)
    → register_workflow w r ≡ ok r'
    → (get_workflow r' w.id ≡ ok w)
      × (get_by_trigger r' t ≡ (if elem t w.trigger_types then some w else get_by_trigger r t))
unfolding register_workflow get_workflow get_by_trigger
get_by_trigger-register_workflow w r r' t h = (
  ground (arith, h, lookup-insert_self w.id w r.by_id),
  ground (arith, h, lookup-bind_triggers w w.trigger_types r.by_trigger t),
)

-- A tool of one of the skills.
abbrev pub allows : String → SkillPromptDefinition → Bool
allows t skill = elem t skill.allowed_tools

-- A list with no text twice.
abbrev pub AtMostOnce : List String → Type 0
AtMostOnce [] = Unit
AtMostOnce (x ∷ xs) = (elem x xs ≡ false) × AtMostOnce xs

elem-append : (t : String) (xs ys : List String) → elem t (xs ++ ys) ≡ (elem t xs || elem t ys)
elem-append t [] ys = refl
elem-append t (x ∷ xs) ys = ground (arith, elem-append t xs ys)

AtMostOnce-snoc :
    (xs : List String) (x : String) → AtMostOnce xs → elem x xs ≡ false → AtMostOnce (xs ++ x ∷ [])
AtMostOnce-snoc [] x once new = (refl, tt)
AtMostOnce-snoc (y ∷ xs) x once new = (
  ground (arith, elem-append y xs (x ∷ []), eq_iff x y, eq_iff y x),
  AtMostOnce-snoc xs x once.1 (ground arith),
)

elem-add_new :
    (t : String) (names allowed : List String)
    → elem t (add_new names allowed) ≡ (elem t allowed || elem t names)
unfolding add_new
elem-add_new t [] allowed = ground arith
elem-add_new t (x ∷ names) allowed = elim (Bool-cases (elem x allowed)) [
  | inl old ↦ rw old (ground (arith, elem-add_new t names allowed, eq_iff x t))
  | inr new ↦
      rw new
        (ground (arith, elem-add_new t names (allowed ++ x ∷ []), elem-append t allowed (x ∷ [])))
]

AtMostOnce-add_new :
    (names allowed : List String) → AtMostOnce allowed → AtMostOnce (add_new names allowed)
unfolding add_new
AtMostOnce-add_new [] allowed once = once
AtMostOnce-add_new (x ∷ names) allowed once = elim (Bool-cases (elem x allowed)) [
  | inl old ↦ rw old (AtMostOnce-add_new names allowed once)
  | inr new ↦
      rw new (AtMostOnce-add_new names (allowed ++ x ∷ []) (AtMostOnce-snoc allowed x once new))
]

elem-collect :
    (t : String) (skills : List SkillPromptDefinition) (allowed : List String)
    → elem t (collect_tools skills allowed) ≡ (elem t allowed || any (allows t) skills)
unfolding collect_tools
elem-collect t [] allowed = ground arith
elem-collect t (s ∷ skills) allowed = ground (
  arith,
  elem-collect t skills (add_new s.allowed_tools allowed),
  elem-add_new t s.allowed_tools allowed,
)

AtMostOnce-collect :
    (skills : List SkillPromptDefinition) (allowed : List String)
    → AtMostOnce allowed
    → AtMostOnce (collect_tools skills allowed)
unfolding collect_tools
AtMostOnce-collect [] allowed once = once
AtMostOnce-collect (s ∷ skills) allowed once =
    AtMostOnce-collect skills (add_new s.allowed_tools allowed)
      (AtMostOnce-add_new s.allowed_tools allowed once)

-- The tools that some registered skills allow are those that one of the skills allows, each of them
-- listed once.
pub allowed_tools_for_lem :
    (registry : SkillRegistry) (skill_ids : List String) (skills : List SkillPromptDefinition)
    → select_skills registry skill_ids ≡ ok skills
    → (tools : List String) × (allowed_tools_for registry skill_ids ≡ ok tools)
      × ((t : String) → elem t tools ≡ any (allows t) skills)
      × AtMostOnce tools
unfolding allowed_tools_for
allowed_tools_for_lem registry skill_ids skills h =
    (collect_tools skills [], rw h, λ t. elem-collect t skills [], AtMostOnce-collect skills [] tt)
