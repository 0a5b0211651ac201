-- ===== src/Orchestrator/Executor/OrderNodes.antt =====
-- The actions on the node map keep the order of dependencies.
use chat_ai.Base.{
  String, true, List, [], ◌∷◌, Option, none, some, ◌≡◌, refl, inl, inr, arith, all, Bool-cases,
  Option-cases,
}
use chat_ai.Base.Maps
use chat_ai.Base.Maps.{Map, get, set, get-set}
use chat_ai.Orchestrator.Types.{NodeStatus, NodeResult, WorkflowRunStatus}
use chat_ai.Orchestrator.NodeMachine.{prepare, complete, verify, is_terminal}
use chat_ai.Orchestrator.Executor.{
  InternalNode, Exec, pure, throw, modify, read, emit, put_node, transition, transition_at,
  transition_to, node_ready, node_cancelled,
}
use chat_ai.Orchestrator.Executor.Nodes.{
  promote, promote_at, promote_from, promote_ready, set_result, verify_if_running, complete_node,
  cancel_node, cancel_from, cancel_all, emit_final, finalize, is_planned, completed_at,
}
use chat_ai.Orchestrator.Executor.Keeps.{
  Keeps, Keeps-modify, Keeps-read, Keeps-reads, Keeps-pure, Keeps-emit, Keeps-bind, Keeps-if,
  then-keeps,
}
use chat_ai.Orchestrator.Executor.Order.{
  InOrder, put_node-InOrder, Keeps-transition, write-InOrder, step-cases,
}

-- A write that leaves the definition and the status alone, at the node of an id.
pub same_status :
    (id : String) (f : InternalNode → InternalNode) (x : Exec) (n : InternalNode)
    → ((m : InternalNode) → (f m).definition ≡ m.definition)
    → ((m : InternalNode) → (f m).status ≡ m.status)
    → get id x.nodes ≡ some n
    → InOrder x.nodes
    → InOrder (put_node id (f n) x).1.nodes
same_status id f x n d s e o =
    put_node-InOrder id n (f n) x e
      (record { same = d n; activity = λ h. rw (← s n) h; done = λ h. rw (s n) h }) o

-- PREPARE of a planned node whose dependencies are completed.
Keeps-prepare :
    (id : String) (x : Exec) (n : InternalNode)
    → get id x.nodes ≡ some n
    → is_planned n.status ≡ true
    → all (completed_at x.nodes) n.definition.deps ≡ true
    → InOrder x.nodes
    → InOrder (transition id prepare x).1.nodes
unfolding transition transition_at transition_to throw pure read put_node modify
Keeps-prepare id x n e planned_now deps o = elim (step-cases n prepare) [
  | inl (s, p, q) ↦
      rw (e, transition_at)
        (rw (p, transition_to)
          (write-InOrder id n (record n { status = s }) x.nodes e (ground arith) (λ _. deps) o))
  | inr (_, p) ↦ rw (e, transition_at) (rw (p, transition_to) o)
]

Keeps-promote :
    (id : String) (x : Exec) (n : InternalNode)
    → get id x.nodes ≡ some n
    → InOrder x.nodes
    → InOrder (promote id n x).1.nodes
unfolding promote read pure
Keeps-promote id x n e o = elim (Bool-cases (is_planned n.status)) [
  | inr not_planned ↦ rw (not_planned, promote) o
  | inl planned_now ↦ elim (Bool-cases (all (completed_at x.nodes) n.definition.deps)) [
    | inr waits ↦ rw (planned_now, promote) (rw (waits, promote) o)
    | inl deps ↦
        rw (planned_now, promote)
          (rw (deps, promote)
            (then-keeps InOrder (transition id prepare) (emit (node_ready n.definition.id)) x
              (Keeps-emit InOrder _) (Keeps-prepare id x n e planned_now deps o)))
  ]
]

Keeps-promote_at : (id : String) → Keeps InOrder (read (λ x. promote_at id (get id x.nodes)))
unfolding promote_at pure
Keeps-promote_at id = Keeps-read InOrder _ λ x o. elim (Option-cases (get id x.nodes)) [
  | inl e ↦ rw (e, promote_at) o
  | inr (n, e) ↦ rw (e, promote_at) (Keeps-promote id x n e o)
]

Keeps-promote_from : (ids : List String) → Keeps InOrder (promote_from ids)
unfolding promote_from
Keeps-promote_from [] = Keeps-pure InOrder tt
Keeps-promote_from (id ∷ ids) =
    Keeps-bind InOrder _ _ (Keeps-promote_at id) (λ _. Keeps-promote_from ids)

pub Keeps-promote_ready : Keeps InOrder promote_ready
unfolding promote_ready
Keeps-promote_ready = Keeps-reads InOrder _ (λ x. Keeps-promote_from (Maps.keys x.nodes))

Keeps-set_result :
    (id : String) (r : NodeResult) → Keeps InOrder (read (λ x. set_result id r (get id x.nodes)))
unfolding set_result pure
Keeps-set_result id r = Keeps-read InOrder _ λ x o. elim (Option-cases (get id x.nodes)) [
  | inl e ↦ rw (e, set_result) o
  | inr (n, e) ↦
      rw (e, set_result)
        (same_status id (λ m. record m { result = some r }) x n (λ m. refl) (λ m. refl) e o)
]

Keeps-verify : (id : String) (o : Option InternalNode) → Keeps InOrder (verify_if_running id o)
unfolding verify_if_running
Keeps-verify id none = Keeps-pure InOrder tt
Keeps-verify id (some n) =
    Keeps-if InOrder _ _ _ (Keeps-transition id verify (λ e. cc)) (Keeps-pure InOrder tt)

pub Keeps-complete_node : (id : String) (r : NodeResult) → Keeps InOrder (complete_node id r)
unfolding complete_node
Keeps-complete_node id r =
    Keeps-bind InOrder _ _ (Keeps-reads InOrder _ (λ x. Keeps-verify id (get id x.nodes))) λ _.
      Keeps-bind InOrder _ _ (Keeps-transition id complete (λ e. cc)) λ _.
        Keeps-bind InOrder _ _ (Keeps-set_result id r) λ _.
          Keeps-bind InOrder _ _ (Keeps-modify InOrder _ (λ x. refl))
            λ _. Keeps-bind InOrder _ _ (Keeps-emit InOrder _) λ _. Keeps-promote_ready

-- `node.status = 'CANCELLED'` at a node that is not terminal.
Keeps-cancel_node :
    (reason id : String) → Keeps InOrder (read (λ x. cancel_node reason id (get id x.nodes)))
unfolding cancel_node pure is_terminal
Keeps-cancel_node reason id = Keeps-read InOrder _ λ x o. elim (Option-cases (get id x.nodes)) [
  | inl e ↦ rw (e, cancel_node) o
  | inr (n, e) ↦ elim (Bool-cases (is_terminal n.status)) [
    | inl over ↦ rw (e, cancel_node) (rw (over, cancel_node) o)
    | inr live ↦
        rw (e, cancel_node)
          (rw (live, cancel_node)
            (then-keeps InOrder (put_node id (record n { status = NodeStatus.cancelled }))
              (emit (node_cancelled n.definition.id reason)) x (Keeps-emit InOrder _)
              (put_node-InOrder id n (record n { status = NodeStatus.cancelled }) x e
                (record { same = refl; activity = ground arith; done = ground arith }) o)))
  ]
]

Keeps-cancel_from : (reason : String) (ids : List String) → Keeps InOrder (cancel_from reason ids)
unfolding cancel_from
Keeps-cancel_from reason [] = Keeps-pure InOrder tt
Keeps-cancel_from reason (id ∷ ids) =
    Keeps-bind InOrder _ _ (Keeps-cancel_node reason id) (λ _. Keeps-cancel_from reason ids)

pub Keeps-cancel_all : (reason : String) → Keeps InOrder (cancel_all reason)
unfolding cancel_all
Keeps-cancel_all reason =
    Keeps-bind InOrder _ _
      (Keeps-reads InOrder _ (λ x. Keeps-cancel_from reason (Maps.keys x.nodes)))
      (λ _. Keeps-reads InOrder _ (λ x. Keeps-emit InOrder _))

Keeps-emit_final : (s : WorkflowRunStatus) → Keeps InOrder (emit_final s)
unfolding emit_final
Keeps-emit_final WorkflowRunStatus.completed = Keeps-reads InOrder _ (λ x. Keeps-emit InOrder _)
Keeps-emit_final WorkflowRunStatus.cancelled = Keeps-reads InOrder _ (λ x. Keeps-emit InOrder _)
Keeps-emit_final WorkflowRunStatus.failed = Keeps-reads InOrder _ (λ x. Keeps-emit InOrder _)
Keeps-emit_final WorkflowRunStatus.quarantined = Keeps-reads InOrder _ (λ x. Keeps-emit InOrder _)

pub Keeps-finalize : Keeps InOrder finalize
unfolding finalize
Keeps-finalize = Keeps-reads InOrder _ (λ x. Keeps-emit_final _)
