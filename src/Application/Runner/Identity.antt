-- ===== src/Application/Runner/Identity.antt =====
-- The run that a stopped event is reported for (`_event_run_id`) and the run that its handling would
-- have started (`resolve_agent_run_id` of src/domain/agent_run.py).
use prism_agent.Prelude.{
  String, ◌≡◌, ◌∙◌, sym, refl, ap, Bool, true, false, Option, none, some, List, [], ◌∷◌, arith,
  ◌==◌,
}
use prism_agent.Domain.Json.{Json, Fields, get, object}
use prism_agent.Domain.Events.{
  RuntimeEvent, EventKind, domain, scheduled, manual, option_or, text_or,
}
use prism_agent.Domain.AgentRun.{
  agent_run_id_keys, or_else, string_or, first_string, pointer_string, resolve_agent_run_id,
}
use prism_agent.Application.Runner.{
  Config, first_text, pointer_text, named_run_id, run_id_for, event_run_id,
}

-- An event that the domain event handler is given.
abbrev pub is_seed : EventKind → Bool
is_seed domain = true
is_seed (scheduled _) = true
is_seed (manual _) = true
is_seed _ = false

module _ (config : Config) where
  first_text-first_string :
      (fields : Fields) (keys : List String)
      → first_text config fields keys ≡ first_string config.strip fields keys
  unfolding first_text first_string
  first_text-first_string fields [] = refl
  first_text-first_string fields (key ∷ keys) = ap (or_else _) (first_text-first_string fields keys)

  pointer_text-pointer_string :
      (pointer : Option Json)
      → pointer_text config pointer ≡ pointer_string config.strip pointer agent_run_id_keys
  pointer_text-pointer_string none = refl
  pointer_text-pointer_string (some (object pointer)) = first_text-first_string pointer _
  pointer_text-pointer_string (some _) = refl

  or_given :
      (correlation key : Option String) (event_id r : String)
      → option_or correlation key ≡ some r
      → (r == "") ≡ false
      → text_or correlation (text_or key event_id) ≡ r
  or_given none none event_id r h nonempty = absurd (ground (arith, h))
  or_given none (some k) event_id r h nonempty = ground (arith, h, nonempty)
  or_given (some c) none event_id r h nonempty = ground (arith, h, nonempty)
  or_given (some c) (some k) event_id r h nonempty = ground (arith, h, nonempty)

  string_or-given :
      (a b c : Option String) (t r : String)
      → or_else a (or_else b c) ≡ some r
      → (c ≡ some r → t ≡ r)
      → string_or a (string_or b t) ≡ r
  string_or-given (some x) b c t r h k = ground (arith, h)
  string_or-given none (some x) c t r h k = ground (arith, h)
  string_or-given none none c t r h k = k h

  named_of :
      (kind : EventKind) (event : RuntimeEvent) {o : Option String}
      → is_seed kind ≡ true
      → run_id_for config kind event ≡ o
      → named_run_id config event ≡ o
  named_of domain event seed h = h
  named_of (scheduled _) event seed h = h
  named_of (manual _) event seed h = h
  named_of _ event seed h = absurd (ground (arith, seed))

  -- The run that the runner reports for a domain, a scheduled or a manual event, when it is not blank, is
  -- the run that the handler of the event works on.
  pub event_run_id-resolve_agent_run_id :
      (event : RuntimeEvent) (run_id : String)
      → is_seed event.kind ≡ true
      → event_run_id config event ≡ some run_id
      → (run_id == "") ≡ false
      → resolve_agent_run_id config.strip event ≡ run_id
  unfolding event_run_id named_run_id resolve_agent_run_id
  event_run_id-resolve_agent_run_id event run_id seed found nonempty =
      let first = first_text-first_string event.payload agent_run_id_keys in
      let second = pointer_text-pointer_string (get event.payload "queue_pointer") in
      string_or-given _ _ (option_or event.correlation_id event.idempotency_key) _ run_id
        (sym (
            ap
              (λ x. or_else x (
                or_else (pointer_text config (get event.payload "queue_pointer"))
                  (option_or event.correlation_id event.idempotency_key)))
              first
            ∙ ap
                (λ x.
                  or_else (first_string config.strip event.payload agent_run_id_keys)
                    (or_else x (option_or event.correlation_id event.idempotency_key)))
                second)
          ∙ named_of event.kind event seed found)
        (λ h. or_given event.correlation_id event.idempotency_key event.event_id run_id h nonempty)
