-- ===== src/Tests/Runs.antt =====
-- A run of two nodes, the second of which depends on the first, and the components that it uses.
use chat_ai.Base.{
  suc, get_or, arith, ◌≤◌, String, true, false, List, [], ◌∷◌, none, some, ok, ◌≡◌, refl, all,
}
use chat_ai.Base.Maps.{get, set}
use chat_ai.Transition.Dag.{
  validate_dag, id_set, check_deps, unknown_of, acyclic_or_fail, detect_cycle, visit_all, visit,
  finish, deps_at, by_id, by_id_from,
}
use chat_ai.Transition.Dag.Fuel.{detect_cycle-ne-none}
use chat_ai.Transition.Dag.Sound.{IsDag, validate_dag-IsDag}
use chat_ai.Orchestrator.Json.{null}
use chat_ai.Orchestrator.Types.{
  NodeStatus, WorkflowNode, WorkflowNodeKind, success, NodeResult, default_bulkhead, default_retry,
}
use chat_ai.Orchestrator.Errors.{node_failure}
use chat_ai.Orchestrator.Bulkhead.{BulkheadSlot, new_limiter, refuses, is_full, try_acquire}
use chat_ai.Orchestrator.Bulkhead.Bounds.{IsBounded, calls, acquires, releases, calls_new-IsBounded}
use chat_ai.Orchestrator.Bulkhead.Slots.{Session, start, acquired, Tracks, Session-Tracks}
use chat_ai.Orchestrator.Idempotency.{new_store, begin, reject, joined, rejected}
use chat_ai.Orchestrator.Idempotency.Once.{
  deliver, succeed, executions, history, executions-le-one, begin_after_reject, is_seed_of,
}
use chat_ai.Orchestrator.NodeMachine.{is_terminal}
use chat_ai.Orchestrator.Executor.{make_node, Exec}
use chat_ai.Orchestrator.Executor.Env.{Env}
use chat_ai.Orchestrator.Executor.Nodes.{derive_status, final_status, cancel_all}
use chat_ai.Orchestrator.Executor.Jobs.{attempts, execute_with_retry}
use chat_ai.Orchestrator.Executor.Attempts.{enough-attempts}
use chat_ai.Orchestrator.Executor.Drive.{run}
use chat_ai.Orchestrator.Executor.Order.{InOrder}
use chat_ai.Orchestrator.Executor.OrderRun.{run-InOrder}
use chat_ai.Orchestrator.Executor.Outcome.{final_status-derive_status}
use chat_ai.Orchestrator.Executor.Cancelled.{cancelled_node, cancel_all-get}

abbrev good : NodeResult
good = record { status = success; output = null; evidence = [] }

-- A handler that succeeds after a millisecond.
abbrev env : Env
env = record {
  registry = [];
  run = λ n action input def. record { outcome = ok good; after_ms = 1 };
  requires_approval = none;
  request_approval = none;
  before_start = λ n id attempt. none;
  persist = λ n. none;
  assess = none;
  rng = λ n. record { num = 0; den = 1 };
  cancels = λ n. none;
  sha256 = λ s. s;
}

abbrev node : String → List String → WorkflowNode
node id deps = record {
  id = id;
  kind = WorkflowNodeKind.action;
  action = some "work";
  input = none;
  deps = deps;
  agent_id = none;
  tenant_id = none;
  tool_id = none;
  retry = none;
  timeout_ms = none;
  compensation = none;
  condition = none;
  approval = none;
}

abbrev graph : List WorkflowNode
graph = node "b" ("a" ∷ []) ∷ node "a" [] ∷ []

abbrev idle : Exec
idle = record {
  graph = [];
  nodes = [];
  results = [];
  completion_order = [];
  compensated = [];
  run_id = "";
  task_id = "";
  hydrated = false;
  cancelled = false;
  cancelled_reason = none;
  deduped = 0;
  events = [];
  queue = [];
  store = new_store;
  limiter = new_limiter default_bulkhead;
  calls = 0;
}

idle-InOrder : InOrder idle.nodes
unfolding get
idle-InOrder = record { deps_done = λ id n e active. cc }

run-InOrder_example : InOrder (run env graph "task" "run" idle).1.nodes
run-InOrder_example = run-InOrder env graph "task" "run" idle idle-InOrder

enough-attempts_example :
    attempts env (suc 5) (node "a" []) (get_or (node "a" []).retry default_retry) 1
    ≡ execute_with_retry env (node "a" []) 1
enough-attempts_example = enough-attempts env (node "a" []) 1 5 (omega arith)

graph_valid : validate_dag (λ n. n.id) (λ n. n.deps) graph ≡ ok tt
unfolding validate_dag id_set check_deps unknown_of acyclic_or_fail detect_cycle visit_all visit
    finish deps_at by_id by_id_from get set
graph_valid = refl

validate_dag-IsDag_example : IsDag (λ n. n.id) (λ n. n.deps) graph
validate_dag-IsDag_example = validate_dag-IsDag (λ n. n.id) (λ n. n.deps) graph graph_valid

detect_cycle-ne-none_example :
    detect_cycle (λ n. n.id) (λ n. n.deps) (node "a" ("a" ∷ []) ∷ graph) ≡ none → ⊥
detect_cycle-ne-none_example =
    detect_cycle-ne-none (λ n. n.id) (λ n. n.deps) (node "a" ("a" ∷ []) ∷ graph)

abbrev waiting_node : Exec
waiting_node = record idle { nodes = ("a", make_node (node "a" [])) ∷ [] }

found : get "a" waiting_node.nodes ≡ some (make_node (node "a" []))
unfolding get
found = refl

cancel_all-get_example :
    get "a" (cancel_all "stop" waiting_node).1.nodes
    ≡ some (cancelled_node (make_node (node "a" [])))
cancel_all-get_example = cancel_all-get "stop" waiting_node "a" (make_node (node "a" [])) found

ended : all is_terminal (NodeStatus.completed ∷ NodeStatus.cancelled ∷ []) ≡ true
unfolding is_terminal
ended = refl

final_status-derive_status_example :
    final_status (NodeStatus.completed ∷ NodeStatus.cancelled ∷ [])
    ≡ derive_status (NodeStatus.completed ∷ NodeStatus.cancelled ∷ [])
final_status-derive_status_example =
    final_status-derive_status (NodeStatus.completed ∷ NodeStatus.cancelled ∷ []) ended

abbrev slot : BulkheadSlot
slot = record { id = "job"; agent_id = some "coder"; tenant_id = none; tool_id = none }

calls_new-IsBounded_example :
    IsBounded (calls (new_limiter default_bulkhead) (acquires slot ∷ releases slot ∷ []))
calls_new-IsBounded_example =
    calls_new-IsBounded default_bulkhead (acquires slot ∷ releases slot ∷ [])

room : refuses (new_limiter default_bulkhead) slot ≡ false
unfolding refuses is_full new_limiter get
room = refl

session : Session (try_acquire (new_limiter default_bulkhead) slot).0 (slot ∷ [])
session = acquired slot (start default_bulkhead) refl room

Session-Tracks_example : Tracks (try_acquire (new_limiter default_bulkhead) slot).0 (slot ∷ [])
Session-Tracks_example = Session-Tracks session

executions-le-one_example :
    executions "key" new_store (deliver "key" ∷ succeed "key" good ∷ deliver "key" ∷ []) ≤ 1
executions-le-one_example =
    executions-le-one "key" new_store (deliver "key" ∷ succeed "key" good ∷ deliver "key" ∷ [])

nothing_completed : get "key" new_store.completed ≡ none
unfolding get
nothing_completed = refl

other_seeds : is_seed_of "key" (deliver "key") ≡ false
unfolding is_seed_of
other_seeds = refl

begin_after_reject_example :
    (begin "key" (history (reject "key" (node_failure "down") new_store) (deliver "key" ∷ []))).0
    ≡ joined (rejected (node_failure "down"))
begin_after_reject_example =
    begin_after_reject "key" (node_failure "down") new_store (deliver "key" ∷ []) nothing_completed
      (other_seeds, tt)
