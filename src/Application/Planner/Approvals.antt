-- ===== src/Application/Planner/Approvals.antt =====
-- The approval that a plan wants for its tools.
use prism_agent.Prelude.{
  String, ◌≡◌, ◌∙◌, sym, refl, ap, Bool, true, false, not, Option, none, some, or_else, List, [],
  ◌∷◌, Dict, lookup, insert, lookup-insert, lookup-cons, lookup-absent, has_key, distinct_keys,
  elem, arith, Bool-cases, inl, inr, ◌==◌, eq_iff, string_eq,
}
use mathlib.Core.Option
use prism_agent.Prelude.Fallible.{Fallible, ok, missing, invalid, ◌>>=◌}
use prism_agent.Capabilities.Definitions.{ToolPromptDefinition}
use prism_agent.Domain.Policies.{ApprovalMode, requires_approval, mode_for, needs_approval}
use prism_agent.Infrastructure.Registries.{ToolRegistry, tool_definition}
use prism_agent.Application.Planner.{
  approval_policy, tool_approval_policy, merge, tool_modes, mode_named,
}

-- The right dict of `a | b` wins.
lookup-merge :
    (k : String) (a b : Dict String String)
    → distinct_keys b ≡ true
    → lookup k (merge a b) ≡ or_else (lookup k b) (lookup k a)
unfolding merge
lookup-merge k a [] h = unfold lookup in refl
lookup-merge k a ((j, v) ∷ b) h =
    lookup-merge k (insert j v a) b (ground (arith, h))
    ∙ ground (
      arith,
      lookup-insert j k v a,
      lookup-cons k j v b,
      lookup-absent k b,
      eq_iff j k,
      ap (λ i. has_key i b),
      h,
    )

lookup-tool_modes :
    (k : String) (modes : Dict String String)
    → lookup k (tool_modes modes) ≡ Option.map mode_named (lookup k modes)
unfolding lookup tool_modes
lookup-tool_modes k [] = refl
lookup-tool_modes k ((j, mode) ∷ modes) = ground (arith, lookup-tool_modes k modes)

needs_approval-mode_named :
    (mode : String) → needs_approval (mode_named mode) ≡ not ("auto_commit" == mode)
unfolding lookup
needs_approval-mode_named mode = ground arith

ok-bind :
    {A B : Type 0} (m : Fallible A) (f : A → Fallible B) (b : B)
    → (m >>= f) ≡ ok b
    → (a : A) × (m ≡ ok a) × (f a ≡ ok b)
ok-bind (ok a) f b h = (a, refl, h)
ok-bind (missing message) f b h = absurd (ground (arith, h))
ok-bind (invalid message) f b h = absurd (ground (arith, h))

module _ (registry : ToolRegistry) where
  lookup-unlisted :
      (k : String) (names : List String) (policies modes : Dict String String)
      → tool_approval_policy registry names policies ≡ ok modes
      → elem k names ≡ false
      → lookup k modes ≡ lookup k policies
  unfolding tool_approval_policy
  lookup-unlisted k [] policies modes h e = ground (arith, h)
  lookup-unlisted k (name ∷ names) policies modes h e =
      let (definition, _, rest) = ok-bind (tool_definition registry name) _ modes h in
      lookup-unlisted k names _ modes rest (ground (arith, e))
      ∙ ground (arith, lookup-insert name k definition.approval_policy policies, e)

  -- Each of the tools is registered, and its mode is that of its definition.
  lookup-listed :
      (k : String) (names : List String) (policies modes : Dict String String)
      → tool_approval_policy registry names policies ≡ ok modes
      → elem k names ≡ true
      → (definition : ToolPromptDefinition) × (tool_definition registry k ≡ ok definition)
        × (lookup k modes ≡ some definition.approval_policy)
  unfolding tool_approval_policy
  lookup-listed k [] policies modes h e = absurd (ground (arith, e))
  lookup-listed k (name ∷ names) policies modes h e =
      let (definition, found, rest) = ok-bind (tool_definition registry name) _ modes h in
      elim (Bool-cases (elem k names)) [
        | inl later ↦ lookup-listed k names _ modes rest later
        | inr last ↦
            let same : (name == k) ≡ true = ground (arith, e, last) in
            (
              definition,
              ap (tool_definition registry) (sym ((eq_iff name k).0 same)) ∙ found,
              lookup-unlisted k names _ modes rest last
                  ∙ ground (arith, lookup-insert name k definition.approval_policy policies, same),
            )
      ]

  -- The mode of a tool: that of the workflow, or else the tool's own.
  abbrev pub mode_of : Option String → String → String
  mode_of none own = own
  mode_of (some mode) own = mode

  -- A tool wants approval, unless its mode is `auto_commit`.
  abbrev pub WantsApproval : Dict String String → String → Bool → Type 0
  WantsApproval workflow_policy tool_name wanted =
      (definition : ToolPromptDefinition) × (tool_definition registry tool_name ≡ ok definition)
      × (wanted
          ≡ not (
              "auto_commit"
              == mode_of (lookup tool_name workflow_policy) definition.approval_policy))

  named_mode :
      (o m : Option String) (own : String) (found : Option ApprovalMode)
      → m ≡ some own
      → found ≡ Option.map mode_named (or_else o m)
      → needs_approval (elim found [ none ↦ ApprovalMode.auto_commit | some x ↦ x ])
        ≡ not ("auto_commit" == mode_of o own)
  named_mode none m own found h e = rw (e, h) (needs_approval-mode_named own)
  named_mode (some mode) m own found h e = rw e (needs_approval-mode_named mode)

  pub requires_approval-WantsApproval :
      (tool_name : String) (allowed : List String) (modes workflow_policy : Dict String String)
      → tool_approval_policy registry allowed [] ≡ ok modes
      → distinct_keys workflow_policy ≡ true
      → elem tool_name allowed ≡ true
      → WantsApproval workflow_policy tool_name
          (requires_approval (approval_policy (merge modes workflow_policy)) tool_name)
  unfolding requires_approval mode_for approval_policy
  requires_approval-WantsApproval tool_name allowed modes workflow_policy known distinct listed =
      let (definition, found, own) = lookup-listed tool_name allowed [] modes known listed in
      (
        definition,
        found,
        named_mode (lookup tool_name workflow_policy) (lookup tool_name modes)
            definition.approval_policy _ own
            (lookup-tool_modes tool_name (merge modes workflow_policy)
              ∙ ap (Option.map mode_named) (lookup-merge tool_name modes workflow_policy distinct)),
      )
