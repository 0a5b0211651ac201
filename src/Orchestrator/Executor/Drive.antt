-- ===== src/Orchestrator/Executor/Drive.antt =====
-- `run`, `resume`, `drive`, `dispatch`, `runJob` and `toJob` of executor.ts, with the in-process
-- scheduler and one worker, which takes one job after another.
use Prim.Native.Char.{nul}
use chat_ai.Base.{
  ℕ, zero, suc, ◌+◌, String, Bool, true, false, List, [], ◌∷◌, Option, none, some, Result, ok, err,
  ◌<>◌, if◌then◌else◌, get_or, length,
}
use chat_ai.Base.Maps
use chat_ai.Base.Maps.{Map}
use chat_ai.Transition.Dag
use chat_ai.Transition.Dag.{DagError}
use chat_ai.Orchestrator.Json.{stable_stringify}
use chat_ai.Orchestrator.Types.{NodeStatus, ready, NodeResult, WorkflowNode, WorkflowJob}
use chat_ai.Orchestrator.NodeMachine.{is_terminal}
use chat_ai.Orchestrator.Errors.{Error, node_failure, dag_error, waits_forever, out_of_fuel}
use chat_ai.Orchestrator.Retry.{enqueue, dequeue}
use chat_ai.Orchestrator.Idempotency
use chat_ai.Orchestrator.Idempotency.{
  IdempotencyStore, Delivery, reused, joined, executes, pending, rejected,
}
use chat_ai.Orchestrator.Bulkhead
use chat_ai.Orchestrator.Bulkhead.{BulkheadSlot, ConcurrencyLimiter}
use chat_ai.Orchestrator.Executor.{
  InternalNode, make_node, run_created, job_enqueued, Exec, Action, ◌>>=◌, ◌>>◌, pure, throw,
  modify, read, catch, emit,
}
use chat_ai.Orchestrator.Executor.Nodes.{complete_node, cancel_all, promote_ready, finalize}
use chat_ai.Orchestrator.Executor.Env.{Env, message, is_fatal, persist}
use chat_ai.Orchestrator.Executor.Work.{or_empty}
use chat_ai.Orchestrator.Executor.Jobs.{fail_node, execute_with_retry}

-- `validateGraph`.
unfoldable pub validate_graph : List WorkflowNode → Result DagError (Unit {0})
validate_graph = Dag.validate_dag (λ n. n.id) (λ n. n.deps)

unfoldable pub operation_id : String → WorkflowNode → String
operation_id run_id def = run_id <> ":" <> def.id

nul_text : String
nul_text = String.◌∷◌ nul String.[]

abbrev pub slot_of : WorkflowJob → WorkflowNode → BulkheadSlot
slot_of job def = record {
  id = job.id;
  agent_id = def.agent_id;
  tenant_id = def.tenant_id;
  tool_id = def.tool_id;
}

is_ready : NodeStatus → Bool
is_ready ready = true
is_ready _ = false

unfoldable pub nodes_from : Map InternalNode → List WorkflowNode → Map InternalNode
nodes_from m [] = m
nodes_from m (n ∷ ns) = nodes_from (Maps.set n.id (make_node n) m) ns

-- `new Map(this.graph.map((n) => [n.id, this.makeNode(n)]))`.
unfoldable pub nodes_of : List WorkflowNode → Map InternalNode
unfolding nodes_from
nodes_of graph = nodes_from [] graph

terminal_at : Option InternalNode → Bool
terminal_at none = true
terminal_at (some n) = is_terminal n.status

attempt_at : Option InternalNode → ℕ
attempt_at none = 1
attempt_at (some n) = n.attempt

unfoldable pub from_dag : Result DagError (Unit {0}) → Action (Unit {0})
from_dag (ok u) = pure tt
from_dag (err e) = throw (dag_error e)

module _ (env : Env) where
  -- `keyOf`, by `idempotencyKey`.
  unfoldable pub key_of : String → WorkflowNode → String
  unfolding operation_id nul_text
  key_of run_id def =
      env.sha256 (operation_id run_id def <> nul_text <> stable_stringify (or_empty def.input))

  -- `toJob`.
  unfoldable pub to_job : Exec → WorkflowNode → WorkflowJob
  unfolding attempt_at
  to_job x def = record {
    id = "job-" <> x.run_id <> "-" <> def.id;
    node_id = def.id;
    run_id = x.run_id;
    operation_id = operation_id x.run_id def;
    idempotency_key = key_of x.run_id def;
    attempt = attempt_at (Maps.get def.id x.nodes);
  }

  unfoldable pub execute : String → Action NodeResult → Delivery → Action NodeResult
  execute key fn (reused r) = pure r
  execute key fn (joined (rejected e)) = throw e
  execute key fn (joined pending) = throw waits_forever
  execute key fn executes = do
    r ←
        catch fn
          (λ e. modify (λ x. record x { store = Idempotency.reject key e x.store }) >> throw e)
    modify (λ x. record x { store = Idempotency.fulfil key r x.store })
    pure r

  -- `idempotency.run(key, fn)`.
  unfoldable pub run_once : String → Action NodeResult → Action NodeResult
  unfolding execute
  run_once key fn = read λ x.
      modify (λ y. record y { store = (Idempotency.begin key x.store).1 })
      >> execute key fn (Idempotency.begin key x.store).0

  -- The `try` block of `runJob`.
  unfoldable pub deliver : WorkflowJob → WorkflowNode → Action (Unit {0})
  unfolding terminal_at
  deliver job def = do
    was_deduped ← read (λ x. pure (Idempotency.has_completed job.idempotency_key x.store))
    r ← run_once job.idempotency_key (execute_with_retry env def job.attempt)
    modify (λ x. if was_deduped then record x { deduped = x.deduped + 1 } else x)
    read (λ x. if terminal_at (Maps.get def.id x.nodes) then pure tt else complete_node def.id r)

  -- The `catch` block of `runJob`.
  unfoldable pub recover : WorkflowNode → Error → Action (Unit {0})
  unfolding terminal_at
  recover def e = read λ x.
      if is_fatal e
      then throw e
      else if terminal_at (Maps.get def.id x.nodes)
      then pure tt
      else fail_node env def (message e) false

  unfoldable pub give_back : WorkflowJob → WorkflowNode → Exec → Exec
  give_back job def x = record x { limiter = Bulkhead.release x.limiter (slot_of job def) }

  -- `finally`.
  unfoldable pub finally : Action (Unit {0}) → (Exec → Exec) → Action (Unit {0})
  finally m f x = let (r, y) = m x in (r, f y)

  -- With a slot: no other job runs that could give one back, so a refusal is for ever.
  unfoldable pub work_on : WorkflowJob → WorkflowNode → Action (Unit {0})
  unfolding give_back finally
  work_on job def = read λ x.
      let (limiter, admitted) = Bulkhead.try_acquire x.limiter (slot_of job def) in
      if admitted
      then (modify (λ y. record y { limiter = limiter })
          >> finally (catch (deliver job def) (recover def)) (give_back job def))
      else throw waits_forever

  unfoldable pub job_at : WorkflowJob → Option InternalNode → Action (Unit {0})
  unfolding work_on
  job_at job none = pure tt
  job_at job (some n) = work_on job n.definition

  -- `runJob`.
  unfoldable pub run_job : WorkflowJob → Action (Unit {0})
  unfolding job_at
  run_job job = read λ x. if x.cancelled then pure tt else job_at job (Maps.get job.node_id x.nodes)

  unfoldable pub take_job : Option WorkflowJob → Action (Unit {0}) → Action (Unit {0})
  take_job none again = pure tt
  take_job (some job) again = run_job job >> again

  -- The loop of a worker; each round takes a job from the queue.
  unfoldable pub dispatch_to : ℕ → Action (Unit {0})
  unfolding take_job
  dispatch_to zero = pure tt
  dispatch_to (suc rounds) =
      let again = dispatch_to rounds in
      read λ x.
        if x.cancelled
        then pure tt
        else (modify (λ y. record y { queue = (dequeue x.queue).1 })
            >> take_job (dequeue x.queue).0 again)

  -- `dispatch`.
  unfoldable pub dispatch : Action (Unit {0})
  unfolding dispatch_to
  dispatch = read (λ x. dispatch_to (suc (length x.queue)))

  unfoldable pub enqueue_each : List WorkflowNode → Action (Unit {0})
  enqueue_each [] = pure tt
  enqueue_each (def ∷ defs) = do
    modify (λ x. record x { queue = enqueue (to_job x def) x.queue })
    read (λ x. emit (job_enqueued def.id (to_job x def).attempt))
    enqueue_each defs

  ready_nodes : Map InternalNode → List WorkflowNode
  ready_nodes [] = []
  ready_nodes ((id, n) ∷ m) =
      let rest = ready_nodes m in if is_ready n.status then n.definition ∷ rest else rest

  unfoldable pub round : Action (Unit {0}) → List WorkflowNode → Action (Unit {0})
  unfolding enqueue_each
  round again [] = pure tt
  round again (def ∷ defs) = enqueue_each (def ∷ defs) >> persist env >> dispatch >> again

  -- The loop of `drive`.
  unfoldable pub drive_rounds : ℕ → Action (Unit {0})
  unfolding round ready_nodes is_ready
  drive_rounds zero = throw out_of_fuel
  drive_rounds (suc rounds) =
      let again = drive_rounds rounds in
      read λ x.
        if x.cancelled
        then cancel_all (get_or x.cancelled_reason "cancelled")
        else round again (ready_nodes x.nodes)

  -- `drive`: a round that goes on has taken a node out of READY for good.
  unfoldable pub drive : Action (Unit {0})
  drive = do promote_ready; read (λ x. drive_rounds (suc (length x.nodes))); finalize; persist env

  unfoldable pub reset : List WorkflowNode → String → String → Exec → Exec
  unfolding nodes_of
  reset graph task_id run_id x = record x {
    graph = graph;
    task_id = task_id;
    run_id = run_id;
    nodes = nodes_of graph;
    results = [];
    completion_order = [];
    compensated = [];
    deduped = 0;
    hydrated = false;
  }

  -- `run` after the graph is found valid.
  unfoldable pub launch : List WorkflowNode → String → String → Action (Unit {0})
  unfolding reset
  launch graph task_id run_id = do
    modify (reset graph task_id run_id)
    emit (run_created run_id task_id graph)
    persist env
    drive

  -- `run`, with its options given.
  unfoldable pub run : List WorkflowNode → String → String → Action (Unit {0})
  unfolding from_dag
  run graph task_id run_id = do from_dag (validate_graph graph); launch graph task_id run_id

  -- `resume`.
  unfoldable pub resume : Action (Unit {0})
  resume =
      read
        λ x. if x.hydrated then drive else throw (node_failure "resume() requires hydrate() first")
