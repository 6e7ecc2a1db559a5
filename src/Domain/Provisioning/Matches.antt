-- ===== src/Domain/Provisioning/Matches.antt =====
-- The identity of a payload that was accepted.
use prism_agent.Prelude.{
  String, ◌≡◌, ◌∙◌, sym, ap, refl, true, Option, none, some, is_empty, is_some, arith, Bool-cases,
  inl, inr, if◌then◌else◌, ◌==◌,
}
use prism_agent.Prelude.Fallible.{Fallible, ok, invalid, ◌>>◌}
use prism_agent.Domain.Json.{Json, Fields, end, field, get}
use prism_agent.Domain.Provisioning.{
  FeatureProvisioningPointerEvent, FeatureProvisioningPayload, first_present, request_paths,
  workspace_paths, project_paths, str_of, is_specified, missing_names, note_mismatch, mismatches,
  check_missing, check_matches, validate_matches,
}

module _ (strip : String → String) (str : Json → String) where
  -- The value is there, and its text is the expected one.
  abbrev pub IsNamed : String → Option Json → Type 0
  IsNamed expected found = (v : Json) × (found ≡ some v) × ((str_of strip str v == expected) ≡ true)

  note_mismatch-end :
      (name expected : String) (found : Option Json) (rest : Fields)
      → is_some found ≡ true
      → note_mismatch strip str name expected found rest ≡ end
      → IsNamed expected found × (rest ≡ end)
  note_mismatch-end name expected none rest present e = absurd (ground (arith, present))
  note_mismatch-end name expected (some v) rest present e =
      elim (Bool-cases (str_of strip str v == expected)) [
        | inl same ↦ ((v, refl, same), ground (arith, same, e))
        | inr other ↦ absurd (ground (arith, other, e))
      ]

  module _ (payload : FeatureProvisioningPayload) (pointer : FeatureProvisioningPointerEvent) where
    check_matches-ok :
        (found : Fields) (u : Unit {0}) → check_matches strip str found ≡ ok u → found ≡ end
    check_matches-ok end u e = refl
    check_matches-ok (field k v rest) u e = absurd (ground (arith, e))

    abbrev IsIdentified : Type 0
    IsIdentified =
        IsNamed pointer.request_id (first_present payload request_paths)
        × IsNamed pointer.workspace_id (first_present payload workspace_paths)
        × IsNamed pointer.project_id (first_present payload project_paths)

    abbrev check : Fallible (Unit {0})
    check =
        check_missing strip str payload
        >> check_matches strip str (mismatches strip str pointer payload)

    abbrev unspecified : Fallible (Unit {0})
    unspecified = invalid "Feature provisioning payload missing featureSpecification."

    present-all :
        is_empty (missing_names strip str payload) ≡ true
        → (is_some (first_present payload request_paths) ≡ true)
          × (is_some (first_present payload workspace_paths) ≡ true)
          × (is_some (first_present payload project_paths) ≡ true)
    present-all e = elim (Bool-cases (is_some (first_present payload project_paths))) [
      | inr no_project ↦ absurd (ground (arith, no_project, e))
      | inl project ↦ elim (Bool-cases (is_some (first_present payload request_paths))) [
        | inr no_request ↦ absurd (ground (arith, project, no_request, e))
        | inl request ↦ elim (Bool-cases (is_some (first_present payload workspace_paths))) [
          | inr no_workspace ↦ absurd (ground (arith, project, request, no_workspace, e))
          | inl workspace ↦ (request, workspace, project)
        ]
      ]
    ]

    matched :
        mismatches strip str pointer payload ≡ end
        → (is_some (first_present payload request_paths) ≡ true)
        → (is_some (first_present payload workspace_paths) ≡ true)
        → (is_some (first_present payload project_paths) ≡ true)
        → IsIdentified
    matched e request workspace project =
        let (same_request, rest) = note_mismatch-end "requestId" pointer.request_id _ _ request e in
        let (same_workspace, rest') =
          note_mismatch-end "workspaceId" pointer.workspace_id _ _ workspace rest in
        let (same_project, _) =
          note_mismatch-end "projectId" pointer.project_id _ _ project rest' in
        (same_request, same_workspace, same_project)

    identified : check ≡ ok tt → IsIdentified
    identified e = elim (Bool-cases (is_empty (missing_names strip str payload))) [
      | inr lacking ↦ absurd (ground (arith, lacking, e))
      | inl complete ↦
          let (request, workspace, project) = present-all complete in
          matched
            (check_matches-ok (mismatches strip str pointer payload) tt
              (ground (arith, complete, e)))
            request workspace project
    ]

    -- A payload that is accepted has a specification, and its request, workspace and project are those
    -- of the pointer.
    pub validate_matches-ok :
        validate_matches strip str payload pointer ≡ ok tt
        → (is_specified strip str (get payload.dump "featureSpecification") ≡ true)
          × IsNamed pointer.request_id (first_present payload request_paths)
          × IsNamed pointer.workspace_id (first_present payload workspace_paths)
          × IsNamed pointer.project_id (first_present payload project_paths)
    unfolding validate_matches
    validate_matches-ok e =
        elim (Bool-cases (is_specified strip str (get payload.dump "featureSpecification"))) [
          | inr bad ↦ absurd (ground (arith, bad, e))
          | inl specified ↦
              let checked = ap (λ b. if b then check else unspecified) specified in
              let (request, workspace, project) = identified (sym checked ∙ e) in
              (specified, request, workspace, project)
        ]
