-- ===== src/Orchestrator/Executor/Hydrate.antt =====
-- `hydrate` and `applyEventToSnapshot` of executor.ts: the state rebuilt from the events.
use chat_ai.Base.{
  String, true, false, List, [], ◌∷◌, ◌++◌, Option, none, some, if◌then◌else◌, get_or, str_eq,
}
use chat_ai.Base.Maps
use chat_ai.Base.Maps.{Map}
use chat_ai.Orchestrator.Types.{
  NodeStatus, planned, running, verifying, retrying, compensating, rolled_back, skipped, NodeResult,
  NodeSnapshot, WorkflowNode,
}
use chat_ai.Orchestrator.NodeMachine.{is_terminal}
use chat_ai.Orchestrator.Errors.{node_failure}
use chat_ai.Orchestrator.Idempotency
use chat_ai.Orchestrator.Executor.{
  InternalNode, WorkflowEvent, run_created, node_running, node_verified, node_completed,
  node_failed, node_retrying, node_skipped, node_compensating, node_rolled_back, node_quarantined,
  node_cancelled, Exec, Action, ◌>>◌, pure, throw, modify, read,
}
use chat_ai.Orchestrator.Executor.Env.{Env}
use chat_ai.Orchestrator.Executor.Nodes.{promote_ready, is_skipped}
use chat_ai.Orchestrator.Executor.Skips.{cascade_skip}
use chat_ai.Orchestrator.Executor.Drive.{key_of, nodes_of}

abbrev pub Snapshots : Type 0
Snapshots = Map NodeSnapshot

fresh : String → NodeSnapshot
fresh id = record {
  node_id = id;
  status = planned;
  attempt = 1;
  result = none;
  error = none;
  skipped_reason = none;
}

-- The `switch` of `applyEventToSnapshot`; `none` is its `default`, which returns.
rewrite : WorkflowEvent → NodeSnapshot → Option NodeSnapshot
rewrite (node_running id attempt) s = some (record s { status = running; attempt = attempt })
rewrite (node_verified id r) s = some (record s { status = verifying })
rewrite (node_completed id r) s = some (record s { status = NodeStatus.completed; result = some r })
rewrite (node_failed id e) s = some (record s { status = NodeStatus.failed; error = some e })
rewrite (node_retrying id a b e) s = some (record s { status = retrying })
rewrite (node_skipped id reason) s =
    some (record s { status = skipped; skipped_reason = some reason })
rewrite (node_compensating id a) s = some (record s { status = compensating })
rewrite (node_rolled_back id e) s = some (record s { status = rolled_back; error = some e })
rewrite (node_quarantined id e) s =
    some (record s { status = NodeStatus.quarantined; error = some e })
rewrite (node_cancelled id reason) s = some (record s { status = NodeStatus.cancelled })
rewrite _ s = none

put_if : String → Option NodeSnapshot → Snapshots → Snapshots
put_if id none snaps = snaps
put_if id (some s) snaps = Maps.set id s snaps

-- `applyEventToSnapshot`.
unfoldable pub apply_event : String → WorkflowEvent → Snapshots → Snapshots
unfolding fresh rewrite put_if
apply_event id e snaps = put_if id (rewrite e (get_or (Maps.get id snaps) (fresh id))) snaps

-- `payload.nodeId` of the events that have one and that `applyEventToSnapshot` knows.
unfoldable pub node_of : WorkflowEvent → Option String
node_of (node_running id attempt) = some id
node_of (node_verified id r) = some id
node_of (node_completed id r) = some id
node_of (node_failed id e) = some id
node_of (node_retrying id a b e) = some id
node_of (node_skipped id reason) = some id
node_of (node_compensating id a) = some id
node_of (node_rolled_back id e) = some id
node_of (node_quarantined id e) = some id
node_of (node_cancelled id reason) = some id
node_of _ = none

apply_at : Option String → WorkflowEvent → Snapshots → Snapshots
apply_at none e snaps = snaps
apply_at (some id) e snaps = if str_eq id "" then snaps else apply_event id e snaps

-- The snapshots after the loop over the events; a `WorkflowRunCreated` leaves them alone.
unfoldable pub snapshots_from : Snapshots → List WorkflowEvent → Snapshots
unfolding apply_at
snapshots_from snaps [] = snaps
snapshots_from snaps (e ∷ es) = snapshots_from (apply_at (node_of e) e snaps) es

-- What the last `WorkflowRunCreated` says: run, task, graph.
unfoldable pub created_in :
    Option (String × String × List WorkflowNode)
    → List WorkflowEvent
    → Option (String × String × List WorkflowNode)
created_in found [] = found
created_in found (run_created run_id task_id graph ∷ es) =
    created_in (some (run_id, task_id, graph)) es
created_in found (e ∷ es) = created_in found es

-- What the loop over the snapshots writes to a node.
restore_node : NodeSnapshot → InternalNode → InternalNode
restore_node s n = record n { attempt = s.attempt }

module _ (env : Env) where
  restore_completed : String → NodeResult → InternalNode → Exec → Exec
  restore_completed id r n x = record x {
    nodes = Maps.set id (record n { status = NodeStatus.completed; result = some r }) x.nodes;
    results = Maps.set id r x.results;
    completion_order = x.completion_order ++ id ∷ [];
    store = Idempotency.seed_completed (key_of env x.run_id n.definition) r x.store;
  }

  restore_other : String → NodeSnapshot → InternalNode → Exec → Exec
  restore_other id s n x =
      if is_skipped s.status
      then record x {
        nodes =
            Maps.set id (record n { status = skipped; skipped_reason = s.skipped_reason }) x.nodes;
      }
      else if is_terminal s.status
      then record x {
        nodes = Maps.set id (record n { status = s.status; error = s.error }) x.nodes;
      }
      else record x { nodes = Maps.set id n x.nodes }

  by_status : NodeStatus → Option NodeResult → String → NodeSnapshot → InternalNode → Exec → Exec
  unfolding restore_completed restore_other
  by_status NodeStatus.completed (some r) id s n x = restore_completed id r n x
  by_status NodeStatus.completed none id s n x = restore_other id s n x
  by_status _ r id s n x = restore_other id s n x

  restore_at : String → NodeSnapshot → Option InternalNode → Exec → Exec
  unfolding by_status restore_node
  restore_at id s none x = x
  restore_at id s (some n) x = by_status s.status s.result id s (restore_node s n) x

  -- The loop over the snapshots.
  unfoldable pub restore_from : Snapshots → Exec → Exec
  unfolding restore_at
  restore_from [] x = x
  restore_from ((id, s) ∷ snaps) x = restore_from snaps (restore_at id s (Maps.get id x.nodes) x)

  cascade_if : Option InternalNode → Action (Unit {0})
  cascade_if none = pure tt
  cascade_if (some n) = if is_skipped n.status then cascade_skip n.definition.id else pure tt

  -- The loop that spreads SKIPPED to the dependents.
  cascade_each : List String → Action (Unit {0})
  unfolding cascade_if
  cascade_each [] = pure tt
  cascade_each (id ∷ ids) = read (λ x. cascade_if (Maps.get id x.nodes)) >> cascade_each ids

  -- The fields that `hydrate` sets before it reads the snapshots.
  rebuilt : String → String → List WorkflowNode → Exec → Exec
  rebuilt run_id task_id graph x = record x {
    graph = graph;
    run_id = run_id;
    task_id = task_id;
    nodes = nodes_of graph;
    results = [];
    completion_order = [];
    compensated = [];
    deduped = 0;
    cancelled = false;
    hydrated = true;
  }

  hydrate_with : Option (String × String × List WorkflowNode) → Snapshots → Action (Unit {0})
  unfolding rebuilt cascade_each
  hydrate_with none snaps = throw (node_failure "hydrate: no WorkflowRunCreated event found")
  hydrate_with (some (run_id, task_id, graph)) snaps = do
    modify (λ x. restore_from snaps (rebuilt run_id task_id graph x))
    read (λ x. cascade_each (Maps.keys x.nodes))
    promote_ready

  -- `hydrate`.
  unfoldable pub hydrate : List WorkflowEvent → Action (Unit {0})
  unfolding hydrate_with
  hydrate events = hydrate_with (created_in none events) (snapshots_from [] events)
