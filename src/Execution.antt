-- ===== src/Execution.antt =====
-- kernel/execution/src: execute.ts, execution-context.ts and registry.ts. The state that the
-- executors change is a parameter, and so is what they do to it: they are given by plugins. What is
-- emitted stands in a log, where `emit` of the context puts it.
pub mod Grants
use chat_ai.Base.{
  ℕ, String, Bool, true, false, List, [], ◌∷◌, ◌++◌, Option, none, some, Result, ok, err, ◌<>◌,
  if◌then◌else◌, any, get_or,
}
use chat_ai.Base.Maps
use chat_ai.Base.Maps.{Map}
use chat_ai.Orchestrator.Types.{EvidenceRef}
use chat_ai.Orchestrator.Json.{Json, str, obj, Fields, field}
use chat_ai.Policy.{PolicyDecision}
use chat_ai.Capability.{CapabilitySpec, names_action}

-- `Result['status']` of the contracts.
pub data OutcomeStatus : Type 0 where
  success failure : OutcomeStatus

-- `Result` of the contracts.
pub record Outcome : Type 0 where
  pub status : OutcomeStatus
  pub output : Json
  pub evidence : List EvidenceRef

-- The events of `execute`, with their payloads.
pub data ExecutionEvent : Type 0 where
  denied : String → String → ExecutionEvent
  requested : String → Json → ExecutionEvent
  rejected : String → String → ExecutionEvent
  completed : String → OutcomeStatus → List EvidenceRef → ExecutionEvent

-- `Omit<Event, 'id' | 'timestamp'>`, as `execute` emits it.
pub record EventDraft : Type 0 where
  pub entity_id : String
  pub actor_id : String
  pub event : ExecutionEvent

-- What has been emitted, and the state outside.
pub record World (W : Type 0) : Type 0 where
  pub log : List EventDraft
  pub outside : W

-- `CreateContextOptions`, without `verify` and `emit`.
pub record ContextOptions : Type 0 where
  pub run_id : String
  pub actor_id : String
  pub parent_id : Option String
  pub capabilities : Option (List CapabilitySpec)
  pub workspace_root : Option String
  pub policy : Option (String → PolicyDecision)

-- `ExecutionContext`, without `verify`.
pub record ExecutionContext : Type 0 where
  pub run_id : String
  pub actor_id : String
  pub parent_id : Option String
  pub capabilities : List CapabilitySpec
  pub workspace_root : String
  pub policy : String → PolicyDecision

-- `defaultPolicy`.
unfoldable pub default_policy : List CapabilitySpec → String → PolicyDecision
default_policy capabilities action =
    if any (names_action action) capabilities
    then record { allowed = true; approval_required = false; reason = "granted by capabilities" }
    else record {
      allowed = false;
      approval_required = false;
      reason = "'" <> (action <> "' is not granted");
    }

-- `createExecutionContext`.
unfoldable pub create_execution_context : ContextOptions → ExecutionContext
create_execution_context opts =
    let capabilities = get_or opts.capabilities [] in
    record {
      run_id = opts.run_id;
      actor_id = opts.actor_id;
      parent_id = opts.parent_id;
      capabilities = capabilities;
      workspace_root = get_or opts.workspace_root "/workspace";
      policy = get_or opts.policy (default_policy capabilities);
    }

-- `require` of the context.
unfoldable pub require_capability : ExecutionContext → String → Result String (Unit {0})
require_capability ctx capability =
    if any (names_action capability) ctx.capabilities
    then ok tt
    else err ("capability '" <> (capability <> "' is required but not granted to this actor"))

-- `CapabilityExecutor`.
pub record CapabilityExecutor (W : Type 0) : Type 0 where
  pub can_execute : ExecutionContext → World W → Result String Bool × World W
  pub execute : Json → ExecutionContext → World W → Result String Outcome × World W

-- `fail`.
unfoldable pub fail : String → Outcome
fail reason = record {
  status = failure;
  output = obj (field "error" (str reason) Fields.end);
  evidence = [];
}

module _ {W : Type 0} where
  -- `ExecutorRegistry.register`.
  unfoldable pub register :
      String
      → CapabilityExecutor W
      → Map (CapabilityExecutor W)
      → Result String (Map (CapabilityExecutor W))
  register action executor executors =
      if Maps.has action executors
      then err ("executor for '" <> (action <> "' is already registered"))
      else ok (Maps.set action executor executors)

  -- `ExecutorRegistry.resolve`.
  unfoldable pub resolve :
      String → Map (CapabilityExecutor W) → Result String (CapabilityExecutor W)
  resolve action executors = elim (Maps.get action executors) [
    | none ↦ err ("no executor registered for action '" <> (action <> "'"))
    | some e ↦ ok e
  ]

  -- `ctx.emit`.
  unfoldable pub emit : ExecutionContext → ExecutionEvent → World W → World W
  emit ctx event w = record w {
    log = w.log ++ record { entity_id = ctx.run_id; actor_id = ctx.actor_id; event = event } ∷ [];
  }

  -- `execute`, after the executor has run.
  unfoldable pub after_run :
      String → ExecutionContext → Result String Outcome × World W → Result String Outcome × World W
  unfolding emit
  after_run action ctx (err message, w) = (err message, w)
  after_run action ctx (ok r, w) = (ok r, emit ctx (completed action r.status r.evidence) w)

  -- `execute`, after `canExecute`.
  unfoldable pub after_check :
      String
      → Json
      → ExecutionContext
      → CapabilityExecutor W
      → Result String Bool × World W
      → Result String Outcome × World W
  unfolding after_run emit fail
  after_check action input ctx executor (err message, w) = (err message, w)
  after_check action input ctx executor (ok true, w) =
      after_run action ctx (executor.execute input ctx w)
  after_check action input ctx executor (ok false, w) =
      (ok (fail "executor cannot execute"), emit ctx (rejected action "executor cannot execute") w)

  -- `execute`, once the action is allowed and its request is emitted.
  unfoldable pub execute_allowed :
      String
      → Json
      → ExecutionContext
      → Map (CapabilityExecutor W)
      → World W
      → Result String Outcome × World W
  unfolding after_check resolve
  execute_allowed action input ctx executors w = elim (resolve action executors) [
    | err message ↦ (err message, w)
    | ok executor ↦ after_check action input ctx executor (executor.can_execute ctx w)
  ]

  -- `execute`.
  unfoldable pub execute :
      String
      → Json
      → ExecutionContext
      → Map (CapabilityExecutor W)
      → World W
      → Result String Outcome × World W
  unfolding execute_allowed emit fail
  execute action input ctx executors w =
      let decision = ctx.policy action in
      if decision.allowed
      then execute_allowed action input ctx executors (emit ctx (requested action input) w)
      else (ok (fail decision.reason), emit ctx (denied action decision.reason) w)
