-- ===== src/Orchestrator/Executor/Nodes.antt =====
-- `promoteReady`, `completeNode`, `cancelAll`, `deriveStatus` and `outcome` of executor.ts.
use chat_ai.Base.{
  String, Bool, true, false, not, List, [], ◌∷◌, ◌++◌, Option, none, some, if◌then◌else◌, all, any,
  get_or, ◌||◌,
}
use chat_ai.Base.Maps
use chat_ai.Base.Maps.{Map}
use chat_ai.Orchestrator.Types.{
  NodeStatus, planned, running, NodeResult, WorkflowRunStatus, rolled_back, skipped,
}
use chat_ai.Orchestrator.NodeMachine.{prepare, verify, complete, is_terminal}
use chat_ai.Orchestrator.Executor.{
  InternalNode, node_ready, node_completed, node_cancelled, run_cancelled, run_completed,
  run_failed, Action, ◌>>◌, pure, modify, read, emit, put_node, transition,
}

-- `s === …` for the statuses that the code compares with.
abbrev pub is_planned : NodeStatus → Bool
is_planned planned = true
is_planned _ = false

abbrev pub is_running : NodeStatus → Bool
is_running running = true
is_running _ = false

abbrev pub is_completed : NodeStatus → Bool
is_completed NodeStatus.completed = true
is_completed _ = false

abbrev pub is_failed : NodeStatus → Bool
is_failed NodeStatus.failed = true
is_failed _ = false

abbrev pub is_rolled_back : NodeStatus → Bool
is_rolled_back rolled_back = true
is_rolled_back _ = false

abbrev pub is_quarantined : NodeStatus → Bool
is_quarantined NodeStatus.quarantined = true
is_quarantined _ = false

abbrev pub is_cancelled : NodeStatus → Bool
is_cancelled NodeStatus.cancelled = true
is_cancelled _ = false

abbrev pub is_skipped : NodeStatus → Bool
is_skipped skipped = true
is_skipped _ = false

-- `this.nodes.get(d)?.status === 'COMPLETED'`.
abbrev pub completed_at : Map InternalNode → String → Bool
completed_at nodes d = elim (Maps.get d nodes) [ none ↦ false | some n ↦ is_completed n.status ]

-- One round of the loop of `promoteReady`, at a node of the map.
unfoldable pub promote : String → InternalNode → Action (Unit {0})
promote id n = read λ x.
    if not (is_planned n.status)
    then pure tt
    else if all (completed_at x.nodes) n.definition.deps
    then (transition id prepare >> emit (node_ready n.definition.id))
    else pure tt

unfoldable pub promote_at : String → Option InternalNode → Action (Unit {0})
unfolding promote
promote_at id none = pure tt
promote_at id (some n) = promote id n

unfoldable pub promote_from : List String → Action (Unit {0})
unfolding promote_at
promote_from [] = pure tt
promote_from (id ∷ ids) = read (λ x. promote_at id (Maps.get id x.nodes)) >> promote_from ids

-- `promoteReady`.
unfoldable pub promote_ready : Action (Unit {0})
unfolding promote_from
promote_ready = read (λ x. promote_from (Maps.keys x.nodes))

unfoldable pub set_result : String → NodeResult → Option InternalNode → Action (Unit {0})
unfolding put_node
set_result id r none = pure tt
set_result id r (some n) = put_node id (record n { result = some r })

unfoldable pub verify_if_running : String → Option InternalNode → Action (Unit {0})
verify_if_running id none = pure tt
verify_if_running id (some n) = if is_running n.status then transition id verify else pure tt

-- `completeNode`, the node being that of the id.
unfoldable pub complete_node : String → NodeResult → Action (Unit {0})
unfolding set_result verify_if_running
complete_node id r = do
  read (λ x. verify_if_running id (Maps.get id x.nodes))
  transition id complete
  read (λ x. set_result id r (Maps.get id x.nodes))
  modify (λ x. record x {
    results = Maps.set id r x.results;
    completion_order = x.completion_order ++ id ∷ [];
  })
  emit (node_completed id r)
  promote_ready

-- One round of the loop of `cancelAll`.
unfoldable pub cancel_node : String → String → Option InternalNode → Action (Unit {0})
unfolding put_node
cancel_node reason id none = pure tt
cancel_node reason id (some n) =
    if is_terminal n.status
    then pure tt
    else (put_node id (record n { status = NodeStatus.cancelled })
        >> emit (node_cancelled n.definition.id reason))

unfoldable pub cancel_from : String → List String → Action (Unit {0})
unfolding cancel_node
cancel_from reason [] = pure tt
cancel_from reason (id ∷ ids) =
    read (λ x. cancel_node reason id (Maps.get id x.nodes)) >> cancel_from reason ids

-- `cancelAll`.
unfoldable pub cancel_all : String → Action (Unit {0})
unfolding cancel_from
cancel_all reason = do
  read (λ x. cancel_from reason (Maps.keys x.nodes))
  read (λ x. emit (run_cancelled x.run_id reason))

-- `deriveStatus`.
unfoldable pub derive_status : List NodeStatus → WorkflowRunStatus
derive_status ss =
    if any is_quarantined ss
    then WorkflowRunStatus.quarantined
    else if any (λ s. is_failed s || is_rolled_back s) ss
    then WorkflowRunStatus.failed
    else if any is_cancelled ss
    then WorkflowRunStatus.cancelled
    else WorkflowRunStatus.completed

-- The status that `finalize` computes.
unfoldable pub final_status : List NodeStatus → WorkflowRunStatus
final_status ss =
    if any is_quarantined ss
    then WorkflowRunStatus.quarantined
    else if any (λ s. is_failed s || is_rolled_back s) ss
    then WorkflowRunStatus.failed
    else if all (λ s. is_completed s || (is_skipped s || is_cancelled s)) ss
    then (if any is_cancelled ss then WorkflowRunStatus.cancelled else WorkflowRunStatus.completed)
    else WorkflowRunStatus.failed

unfoldable pub statuses : Map InternalNode → List NodeStatus
statuses [] = []
statuses ((id, n) ∷ m) = n.status ∷ statuses m

unfoldable pub emit_final : WorkflowRunStatus → Action (Unit {0})
emit_final WorkflowRunStatus.completed = read (λ x. emit (run_completed x.run_id))
emit_final WorkflowRunStatus.cancelled =
    read (λ x. emit (run_cancelled x.run_id (get_or x.cancelled_reason "cancelled")))
emit_final s = read (λ x. emit (run_failed x.run_id s))

-- `finalize`.
unfoldable pub finalize : Action (Unit {0})
unfolding emit_final statuses final_status
finalize = read (λ x. emit_final (final_status (statuses x.nodes)))
