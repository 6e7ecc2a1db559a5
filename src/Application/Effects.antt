-- ===== src/Application/Effects.antt =====
-- What the handlers of src/application act on: the state store, the queue and the inline counter of
-- the action handler, and the outside world that they call. A handler may raise, and what it wrote
-- before that stays written.
pub mod Keeps
pub mod Plumbing
pub mod Hoare
pub mod Sends
use prism_agent.Prelude.{
  ℕ, ◌+◌, String, Bool, true, false, Option, none, some, List, [], ◌∷◌, ◌++◌, Dict, length,
}
use prism_agent.Prelude.Fallible.{Fallible, ok, missing, invalid}
use prism_agent.Capabilities.Definitions.{WorkflowPromptDefinition, SkillPromptDefinition}
use prism_agent.Domain.Json.{Json, Fields}
use prism_agent.Domain.Policies.{ActionApprovalPolicy}
use prism_agent.Infrastructure.Registries.{AgentTool, Registries}
use prism_agent.Domain.Events.{RuntimeEvent, EventEnvelope, wrap}
use prism_agent.Domain.Actions.{PlannedAction, Version}
use prism_agent.Domain.Plans.{AgentPlan}
use prism_agent.Domain.Results.{AgentContext, ToolResult, TraceEvent}
use prism_agent.Infrastructure.Queue
use prism_agent.Infrastructure.Queue.{MemoryQueue}
use prism_agent.Infrastructure.StateStore
use prism_agent.Infrastructure.StateStore.{MemoryStateStore}

-- What the planning agent is made with and asked for.
pub record PlanTask : Type 0 where
  pub prompt : WorkflowPromptDefinition
  pub skills : List SkillPromptDefinition
  pub tools : List AgentTool
  pub model_tier : Option String
  pub context : AgentContext
  pub context_snapshot_ref : String
  pub approval_policy : ActionApprovalPolicy

-- The calls that leave the modelled program: a tool of the registry, the planning agent, which asks the
-- language model, the reads of the Prism API and of the object storage, and the methods of
-- `AgentRunSync`, which report to the API.
pub data OutsideCall : Type 0 where
  run_tool : PlannedAction → AgentContext → OutsideCall
  read_versions :
      (workspace_id : String) → Option String → (entity_refs : List String) → OutsideCall
  record_action_state : AgentPlan → PlannedAction → (event_name message : String) → OutsideCall
  record_run_completed : AgentPlan → OutsideCall
  generate_plan : PlanTask → OutsideCall
  fetch_json : (object_name : Json) → (version_id : Option Json) → OutsideCall
  fetch_context_entities : RuntimeEvent → (required_context : List String) → OutsideCall
  fetch_permissions : RuntimeEvent → OutsideCall
  capture_entity_versions : RuntimeEvent → (entities : Fields) → OutsideCall
  record_run_started : AgentContext → (run_id objective prompt_version : String) → OutsideCall
  record_run_running : (workspace_id run_id : String) → OutsideCall
  record_plan_created : AgentPlan → AgentContext → OutsideCall
  record_run_failed : (workspace_id run_id message : String) → OutsideCall
  record_run_completed_by_id : (workspace_id run_id : String) → OutsideCall

pub data Answer (A : Type 0) : Type 0 where
  answered : A → Answer A
  raised : (message : String) → Answer A

-- The world answers by the calls that were made before, and draws the `uuid4` of a number. `has_tool`
-- says which names the tool registry of the executor knows, and `has_diff_store` whether there is an
-- object storage. `str` and `strip` are Python's `str` of a JSON value and `str.strip`. The answer to
-- the start of a run is the `status` in the API's response, if there is one.
pub record Outside : Type 0 where
  pub uuid : ℕ → String
  pub has_tool : String → Bool
  pub registries : Registries
  pub has_diff_store : Bool
  pub strip : String → String
  pub str : Json → String
  pub tool : List OutsideCall → PlannedAction → AgentContext → Answer ToolResult
  pub versions : List OutsideCall → OutsideCall → Answer (Dict String Version)
  pub generate : List OutsideCall → PlanTask → Answer AgentPlan
  pub blob : List OutsideCall → OutsideCall → Answer Fields
  pub entities : List OutsideCall → OutsideCall → Answer Fields
  pub permissions : List OutsideCall → OutsideCall → Answer (Dict String Bool)
  pub start : List OutsideCall → OutsideCall → Answer (Option Json)
  pub report : List OutsideCall → OutsideCall → Answer (Unit {0})

pub record Runtime : Type 0 where
  pub store : MemoryStateStore
  pub queue : MemoryQueue
  pub inline_actions_used : ℕ
  pub drawn : ℕ
  pub calls : List OutsideCall

pub data Error : Type 0 where
  type_error : String → Error
  plan_not_found : String → Error
  action_not_found : String → Error
  key_error : String → Error
  validation_error : Error
  outside_error : String → Error
  runtime_error : String → Error
  value_error : String → Error
  run_already_terminal : (run_id status : String) → Error

pub data Result (A : Type 0) : Type 0 where
  return : A → Result A
  raise : Error → Result A

abbrev pub Action : Type 0 → Type 0
Action A = Runtime → Result A × Runtime

module _ {A : Type 0} where
  unfoldable pub pure : A → Action A
  pure a s = (return a, s)

  unfoldable pub throw : Error → Action A
  throw e s = (raise e, s)

  pub gets : (Runtime → A) → Action A
  gets f s = (return (f s), s)

  abbrev pub of_answer : Answer A → Result A
  of_answer (answered a) = return a
  of_answer (raised message) = raise (outside_error message)

  -- Makes a call of the outside world, and notes it.
  unfoldable pub outside : OutsideCall → (List OutsideCall → Answer A) → Action A
  outside call answer s = (of_answer (answer s.calls), record s { calls = s.calls ++ call ∷ [] })

  abbrev pub result_or : Result A → (Error → Action A) → Action A
  result_or (return a) handler s = (return a, s)
  result_or (raise e) handler s = handler e s

  -- `try: m` / `except Exception as exc: handler`
  unfoldable pub try_except : Action A → (Error → Action A) → Action A
  try_except m handler s = let (r, s') = m s in result_or r handler s'

unfoldable pub of_fallible : {A : Type 0} → Fallible A → Action A
of_fallible (ok a) s = (return a, s)
of_fallible (missing message) s = (raise (key_error message), s)
of_fallible (invalid message) s = (raise (value_error message), s)

pub modify : (Runtime → Runtime) → Action (Unit {0})
modify f s = (return tt, f s)

module _ {A B : Type 0} where
  abbrev pub continue : Result A → (A → Action B) → Action B
  continue (return a) f s = f a s
  continue (raise e) f s = (raise e, s)

  infixl 5 ◌>>=◌ ◌>>◌
  unfoldable pub ◌>>=◌ : Action A → (A → Action B) → Action B
  unfolding pure throw gets outside try_except of_fallible modify
  ◌>>=◌ m f s = let (r, s') = m s in continue r f s'

  abbrev pub ◌>>◌ : Action A → Action B → Action B
  m >> n = m >>= λ _. n

-- Changes the state store.
unfoldable pub store : (MemoryStateStore → MemoryStateStore) → Action (Unit {0})
store f = modify (λ s. record s { store = f s.store })

unfoldable pub enqueue_as : String → EventEnvelope → Action (Unit {0})
enqueue_as message_id envelope =
    modify (λ s. record s { queue = Queue.enqueue message_id envelope s.queue })

unfoldable pub trace :
    RuntimeEvent → (event_name message : String) → Option String → Option String → Action (Unit {0})
trace event event_name message plan_id action_id = store (
    StateStore.append_trace_event (record {
      event_name = event_name;
      workspace_id = event.workspace_id;
      project_id = event.project_id;
      plan_id = plan_id;
      action_id = action_id;
      message = message;
    }))

module _ (world : Outside) where
  -- `str(uuid4())`
  unfoldable pub fresh : Action String
  fresh = do
    n ← gets (λ s. s.drawn)
    modify (λ s. record s { drawn = s.drawn + 1 })
    pure (world.uuid n)

  -- `self.queue.enqueue(envelope)`
  unfoldable pub enqueue : EventEnvelope → Action (Unit {0})
  enqueue envelope = do message_id ← fresh; enqueue_as message_id envelope

  -- `EventEnvelope.wrap(event)`
  unfoldable pub wrapped : RuntimeEvent → Action EventEnvelope
  wrapped event = do envelope_id ← fresh; pure (wrap envelope_id event)

  unfoldable pub report : OutsideCall → Action (Unit {0})
  report call = outside call (λ calls. world.report calls call)
