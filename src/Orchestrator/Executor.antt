-- ===== src/Orchestrator/Executor.antt =====
-- The state of `DagExecutor` in runtime/orchestrator/src/executor.ts, and its actions: functions of
-- the state that return or throw, and keep what they wrote before they threw.
pub mod Nodes
pub mod Skips
pub mod Env
pub mod Work
pub mod Jobs
pub mod Drive
pub mod Hydrate
pub mod Keeps
pub mod Order
pub mod OrderNodes
pub mod OrderSkips
pub mod OrderWork
pub mod OrderJobs
pub mod OrderRun
pub mod Attempts
pub mod Outcome
pub mod Cancelled
use chat_ai.Base.{
  ℕ, String, Bool, true, false, List, [], ◌∷◌, ◌++◌, Option, none, some, Result, ok, err, ◌<>◌,
}
use chat_ai.Base.Maps
use chat_ai.Base.Maps.{Map}
use chat_ai.Transition
use chat_ai.Transition.{IllegalTransition}
use chat_ai.Orchestrator.Types.{
  NodeStatus, planned, NodeResult, WorkflowNode, WorkflowRunStatus, ApprovalSpec, EvidenceRef,
}
use chat_ai.Orchestrator.Errors.{Error, illegal}
use chat_ai.Orchestrator.Idempotency.{IdempotencyStore}
use chat_ai.Orchestrator.Bulkhead.{ConcurrencyLimiter}
use chat_ai.Orchestrator.Retry.{JobQueue}
use chat_ai.Orchestrator.NodeMachine.{NodeEvent, node_state_machine}

-- `InternalNode`.
pub record InternalNode : Type 0 where
  pub definition : WorkflowNode
  pub status : NodeStatus
  pub attempt : ℕ
  pub failure_count : ℕ
  pub result : Option NodeResult
  pub error : Option String
  pub skipped_reason : Option String

-- `makeNode`.
unfoldable pub make_node : WorkflowNode → InternalNode
make_node n = record {
  definition = n;
  status = planned;
  attempt = 1;
  failure_count = 0;
  result = none;
  error = none;
  skipped_reason = none;
}

-- The events that the executor emits, one constructor for each type, with the payload.
pub data WorkflowEvent : Type 0 where
  run_created : String → String → List WorkflowNode → WorkflowEvent
  job_enqueued : String → ℕ → WorkflowEvent
  node_ready : String → WorkflowEvent
  node_running : String → ℕ → WorkflowEvent
  node_verified : String → NodeResult → WorkflowEvent
  node_completed : String → NodeResult → WorkflowEvent
  node_failed : String → String → WorkflowEvent
  node_retrying : String → ℕ → ℕ → String → WorkflowEvent
  node_skipped : String → String → WorkflowEvent
  node_compensating : String → String → WorkflowEvent
  node_rolled_back : String → String → WorkflowEvent
  node_compensated : String → String → WorkflowEvent
  node_quarantined : String → String → WorkflowEvent
  node_cancelled : String → String → WorkflowEvent
  approval_required approval_granted approval_denied : String → ApprovalSpec → WorkflowEvent
  run_completed : String → WorkflowEvent
  run_cancelled : String → String → WorkflowEvent
  run_failed : String → WorkflowRunStatus → WorkflowEvent

-- The fields of `DagExecutor` that change during a run. `events` is what the ledger was handed.
pub record Exec : Type 0 where
  pub graph : List WorkflowNode
  pub nodes : Map InternalNode
  pub results : Map NodeResult
  pub completion_order : List String
  pub compensated : List String
  pub run_id : String
  pub task_id : String
  pub hydrated : Bool
  pub cancelled : Bool
  pub cancelled_reason : Option String
  pub deduped : ℕ
  pub events : List WorkflowEvent
  pub queue : JobQueue
  pub store : IdempotencyStore
  pub limiter : ConcurrencyLimiter
  pub calls : ℕ  -- how many calls of injected code the run has waited for

-- `Action` is a method body: the state that it leaves stays when it throws.
abbrev pub Action : Type 0 → Type 0
Action A = Exec → Result Error A × Exec

pub continue : {A B : Type 0} → Result Error A → (A → Action B) → Action B
continue (ok a) f x = f a x
continue (err e) f x = (err e, x)

infixl 5 ◌>>=◌ ◌>>◌
unfoldable pub ◌>>=◌ : {A B : Type 0} → Action A → (A → Action B) → Action B
unfolding continue
◌>>=◌ m f x = let (r, y) = m x in continue r f y

abbrev pub ◌>>◌ : {B : Type 0} → Action (Unit {0}) → Action B → Action B
m >> k = m >>= λ _. k

unfoldable pub pure : {A : Type 0} → A → Action A
pure a x = (ok a, x)

unfoldable pub throw : {A : Type 0} → Error → Action A
throw e x = (err e, x)

unfoldable pub modify : (Exec → Exec) → Action (Unit {0})
modify f x = (ok tt, f x)

-- An action that depends on the state.
unfoldable pub read : {A : Type 0} → (Exec → Action A) → Action A
read f x = f x x

pub handled : {A : Type 0} → Result Error A → (Error → Action A) → Action A
handled (ok a) handle x = (ok a, x)
handled (err e) handle x = handle e x

-- `try … catch`.
unfoldable pub catch : {A : Type 0} → Action A → (Error → Action A) → Action A
unfolding handled
catch m handle x = let (r, y) = m x in handled r handle y

-- `emit`, for an executor that has a ledger.
unfoldable pub emit : WorkflowEvent → Action (Unit {0})
emit e = modify (λ x. record x { events = x.events ++ e ∷ [] })

-- A write to a field of the node object that the map holds under the id.
unfoldable pub put_node : String → InternalNode → Action (Unit {0})
put_node id n = modify (λ x. record x { nodes = Maps.set id n x.nodes })

transition_to :
    String
    → InternalNode
    → Result (IllegalTransition NodeStatus NodeEvent) NodeStatus
    → Action (Unit {0})
unfolding put_node
transition_to id n (ok s) = put_node id (record n { status = s })
transition_to id n (err e) = throw (illegal e)

transition_at : String → NodeEvent → Option InternalNode → Action (Unit {0})
unfolding transition_to Transition.transition
transition_at id event none = pure tt
transition_at id event (some n) =
    transition_to id n (Transition.transition node_state_machine n.status event)

-- `transition(node, event)`, the node being that of the id.
unfoldable pub transition : String → NodeEvent → Action (Unit {0})
unfolding transition_at
transition id event = read (λ x. transition_at id event (Maps.get id x.nodes))
