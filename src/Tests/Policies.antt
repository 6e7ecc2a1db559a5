-- ===== src/Tests/Policies.antt =====
-- The policies at sample events, tools and versions.
use prism_agent.Prelude.{String, ◌≡◌, refl, [], ◌∷◌, Dict, lookup, string_eq}
use prism_agent.Domain.Events.{domain}
use prism_agent.Domain.Actions.{Version, revision}
use prism_agent.Domain.Policies.{evaluate, diff}
use prism_agent.Domain.Policies.Laws.{admits, evaluate-allowed, difference, lookup-diff}
use prism_agent.Tests.Samples.{event}

evaluate-allowed_example : (evaluate (event domain "pr.opened")).allowed ≡ admits domain "pr.opened"
evaluate-allowed_example = evaluate-allowed (event domain "pr.opened")

abbrev expected : Dict String Version
expected = ("e", revision 1) ∷ ("f", revision 1) ∷ []

abbrev current : Dict String Version
current = ("e", revision 2) ∷ []

lookup-diff_example :
    lookup "e" (diff expected current) ≡ difference (lookup "e" expected) (lookup "e" current)
lookup-diff_example = lookup-diff "e" expected current refl
