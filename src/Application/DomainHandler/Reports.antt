-- ===== src/Application/DomainHandler/Reports.antt =====
-- The start of a run at the Prism API (src/application/domain_event_handler.py), with
-- `_raise_if_run_terminal` of src/application/agent_run_sync.py.
use prism_agent.Prelude.{String, Option, none, some, List, [], ◌∷◌, elem, if◌then◌else◌}
use Prim.Native.String.{◌++◌}
use prism_agent.Domain.Json.{Json, text}
use prism_agent.Domain.Events.{EventEnvelope}
use prism_agent.Domain.Results.{ContextSnapshot}
use prism_agent.Infrastructure.Registries.{WorkflowDefinition}
use prism_agent.Application.Effects.{
  Outside, OutsideCall, Action, Error, record_run_started, record_run_running, record_run_failed,
  run_already_terminal, pure, throw, outside, try_except, trace, report, ◌>>=◌, ◌>>◌,
}
use prism_agent.Application.ActionHandler.{error_text}

abbrev pub agent_run_terminal_statuses : List String
agent_run_terminal_statuses = "completed" ∷ "failed" ∷ "cancelled" ∷ []

-- `_raise_if_run_terminal`, for the status of a response.
unfoldable pub raise_if_run_terminal : Option Json → String → Action (Unit {0})
raise_if_run_terminal (some (text status)) run_id =
    if elem status agent_run_terminal_statuses
    then throw (run_already_terminal run_id status)
    else pure tt
raise_if_run_terminal _ run_id = pure tt

-- `except AgentRunAlreadyTerminalError as exc`: the status that the run has, if it is over.
abbrev pub terminal_only : Error → Action (Option String)
terminal_only (run_already_terminal run_id status) = pure (some status)
terminal_only e = throw e

module _ (world : Outside) where
  unfoldable pub report_run : OutsideCall → String → Action (Unit {0})
  report_run call run_id = do
    status ← outside call (λ calls. world.start calls call)
    raise_if_run_terminal status run_id

  unfoldable pub start_run : ContextSnapshot → String → WorkflowDefinition → Action (Unit {0})
  start_run snapshot run_id workflow =
      report_run (record_run_started snapshot.context run_id workflow.goal workflow.prompt_version)
        run_id

  unfoldable pub resume_run : ContextSnapshot → String → Action (Unit {0})
  resume_run snapshot run_id =
      report_run (record_run_running snapshot.context.workspace_id run_id) run_id

  abbrev pub terminal_status : Action (Unit {0}) → Action (Option String)
  terminal_status m = try_except (do m; pure none) terminal_only

  -- `except Exception as exc: record_run_failed(...); raise`
  unfoldable pub report_failure : {A : Type 0} → (workspace_id run_id : String) → Error → Action A
  report_failure workspace_id run_id exc = do
    report world (record_run_failed workspace_id run_id (error_text exc))
    throw exc

-- `_trace_terminal_run_skip`
unfoldable pub trace_terminal_run_skip :
    EventEnvelope → (run_id status : String) → Action (Unit {0})
trace_terminal_run_skip envelope run_id status =
    trace envelope.event "run.terminal_skip"
      ("Skipped run " ++ run_id ++ " because it is already " ++ status ++ ".") (some run_id) none
