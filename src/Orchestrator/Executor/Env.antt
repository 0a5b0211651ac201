-- ===== src/Orchestrator/Executor/Env.antt =====
-- What is injected into `DagExecutor`: the handler, the hooks, the guard, the clock's randomness.
-- Each call of injected code is numbered, and the answers are a function of the number, so that the
-- code may answer differently each time; while the executor waits for it, `cancel` may be called.
use chat_ai.Base.{
  ℕ, suc, String, Bool, true, false, List, [], ◌∷◌, Option, none, some, Result, ok, err, ◌<>◌,
}
use chat_ai.Orchestrator.Json.{Json, str, arr, obj, nil, cons, Items, end, field}
use chat_ai.Orchestrator.Types.{
  NodeStatus, planned, ready, running, waiting, verifying, retrying, compensating, rolled_back,
  skipped, NodeResult, NodeResultStatus, success, failure, WorkflowNode, ApprovalSpec, EvidenceRef,
}
use chat_ai.Orchestrator.NodeMachine.{
  NodeEvent, prepare, start, wait, approve, deny, verify, complete, fail, retry, resume, compensate,
  rollback, quarantine, cancel, skip,
}
use chat_ai.Transition.Dag.{DagError, duplicate_ids, unknown_dep, cycle, unreachable}
use chat_ai.Orchestrator.Retry.{CompensationRegistry, Fraction}
use chat_ai.Orchestrator.Errors.{
  Error, illegal, node_failure, dag_error, crash_injected, waits_forever,
}
use chat_ai.Orchestrator.Executor.{Exec, Action, ◌>>◌, pure, throw, modify, read}

-- `FailureGuard`'s answer.
pub record Assessment : Type 0 where
  pub stop : Bool
  pub quarantine : Bool
  pub reason : Option String

-- A promise of the handler: what it settles to, and after how many milliseconds.
pub record Settled : Type 0 where
  pub outcome : Result Error NodeResult
  pub after_ms : ℕ

pub record Env : Type 0 where
  pub registry : CompensationRegistry
  pub run : ℕ → String → Option Json → WorkflowNode → Settled
  pub requires_approval : Option (String → Bool)
  pub request_approval : Option (ℕ → ApprovalSpec → String → Result Error Bool)
  pub before_start : ℕ → String → ℕ → Option Error
  pub persist : ℕ → Option Error
  pub assess : Option (String → ℕ → String → Assessment)
  pub rng : ℕ → Fraction
  pub cancels : ℕ → Option String
  pub sha256 : String → String

status_name : NodeStatus → String
status_name planned = "PLANNED"
status_name ready = "READY"
status_name running = "RUNNING"
status_name waiting = "WAITING"
status_name verifying = "VERIFYING"
status_name NodeStatus.completed = "COMPLETED"
status_name NodeStatus.failed = "FAILED"
status_name retrying = "RETRYING"
status_name compensating = "COMPENSATING"
status_name rolled_back = "ROLLED_BACK"
status_name NodeStatus.quarantined = "QUARANTINED"
status_name NodeStatus.cancelled = "CANCELLED"
status_name skipped = "SKIPPED"

event_name : NodeEvent → String
event_name prepare = "PREPARE"
event_name start = "START"
event_name wait = "WAIT"
event_name approve = "APPROVE"
event_name deny = "DENY"
event_name verify = "VERIFY"
event_name complete = "COMPLETE"
event_name fail = "FAIL"
event_name retry = "RETRY"
event_name resume = "RESUME"
event_name compensate = "COMPENSATE"
event_name rollback = "ROLLBACK"
event_name quarantine = "QUARANTINE"
event_name cancel = "CANCEL"
event_name skip = "SKIP"

dag_message : DagError → String
dag_message duplicate_ids = "duplicate node ids"
dag_message (unknown_dep id dep) = "node '" <> id <> "' depends on unknown node '" <> dep <> "'"
dag_message cycle = "plan contains a cycle"
dag_message unreachable = "unreachable nodes (cycle or missing dependency)"
dag_message DagError.out_of_fuel = ""

-- `err.message`.
unfoldable pub message : Error → String
unfolding status_name event_name dag_message
message (illegal e) =
    "Illegal state transition: event '"
    <> event_name e.event
    <> "' is not allowed from state '"
    <> status_name e.from
    <> "'"
message (node_failure m) = m
message (dag_error e) = dag_message e
message crash_injected = "injected crash (kill orchestrator)"
message waits_forever = ""
message Error.out_of_fuel = ""

-- The errors that no handler of the code sees but `finally`.
abbrev pub is_fatal : Error → Bool
is_fatal crash_injected = true
is_fatal waits_forever = true
is_fatal Error.out_of_fuel = true
is_fatal _ = false

-- `cancel`.
unfoldable pub cancel_run : String → Exec → Exec
cancel_run reason x = record x { cancelled = true; cancelled_reason = some reason }

unfoldable pub cancelled_by : Option String → Exec → Exec
unfolding cancel_run
cancelled_by none x = x
cancelled_by (some reason) x = cancel_run reason x

raise_if : Option Error → Action (Unit {0})
raise_if none = pure tt
raise_if (some e) = throw e

unfoldable pub result_or : {A : Type 0} → Result Error A → Action A
result_or (ok a) = pure a
result_or (err e) = throw e

-- The status as a JSON text.
abbrev pub status_json : NodeResultStatus → Json
status_json success = str "success"
status_json failure = str "failure"

evidence_json : List EvidenceRef → Items
evidence_json [] = nil
evidence_json (e ∷ es) =
    cons (obj (field "evidenceId" (str e.evidence_id) (field "kind" (str e.kind) end)))
      (evidence_json es)

-- A result as the object that `getPath` walks.
unfoldable pub result_json : NodeResult → Json
unfolding evidence_json
result_json r = obj (
    field "status" (status_json r.status)
      (field "output" r.output (field "evidence" (arr (evidence_json r.evidence)) end)))

module _ (env : Env) where
  -- Wait for the answer of injected code.
  unfoldable pub external : {A : Type 0} → (ℕ → Result Error A) → Action A
  unfolding cancelled_by result_or
  external f = read λ x.
      modify (λ y. cancelled_by (env.cancels x.calls) (record y { calls = suc x.calls }))
      >> result_or (f x.calls)

  unfoldable pub error_of : Option Error → Result Error (Unit {0})
  error_of none = ok tt
  error_of (some e) = err e

  -- `persist`.
  unfoldable pub persist : Action (Unit {0})
  unfolding external error_of
  persist = external (λ n. error_of (env.persist n))

  unfoldable pub before_start : String → ℕ → Action (Unit {0})
  unfolding external error_of
  before_start id attempt = external (λ n. error_of (env.before_start n id attempt))
