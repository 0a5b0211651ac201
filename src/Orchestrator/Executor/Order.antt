-- ===== src/Orchestrator/Executor/Order.antt =====
-- Dependencies come first: no run brings a node out of PLANNED into READY before every dependency
-- is COMPLETED, and a COMPLETED node stays so.
use chat_ai.Base.{
  String, Bool, true, false, List, [], ◌∷◌, some, ok, err, ◌≡◌, refl, sym, subst, ◌≢◌, ◌⊎◌, inl,
  inr, arith, all, Bool-cases, Option-cases, str_eq, eq_iff,
}
use chat_ai.Base.Maps.{Map, get, set, get-set}
use chat_ai.Transition
use chat_ai.Orchestrator.Types.{NodeStatus, planned, skipped}
use chat_ai.Orchestrator.NodeMachine.{NodeEvent, prepare, node_state_machine}
use chat_ai.Orchestrator.Executor.{
  InternalNode, Exec, pure, throw, modify, put_node, transition, transition_at, transition_to,
}
use chat_ai.Orchestrator.Executor.Nodes.{is_completed, completed_at}
use chat_ai.Orchestrator.Executor.Keeps.{Keeps, Keeps-read}

-- Statuses past PLANNED, on the way that begins at READY.
abbrev pub is_active : NodeStatus → Bool
is_active planned = false
is_active skipped = false
is_active NodeStatus.cancelled = false
is_active _ = true

-- Every node that has been READY has all its dependencies COMPLETED.
pub record InOrder (nodes : Map InternalNode) : Type 0 where
  pub deps_done :
      (id : String) (n : InternalNode)
      → get id nodes ≡ some n
      → is_active n.status ≡ true
      → all (completed_at nodes) n.definition.deps ≡ true

-- What a write to a node may do.
pub record Allowed (old new : InternalNode) : Type 0 where
  pub same : new.definition ≡ old.definition
  pub activity : is_active new.status ≡ true → is_active old.status ≡ true
  pub done : is_completed old.status ≡ true → is_completed new.status ≡ true

completed_at-set :
    (id j : String) (old new : InternalNode) (nodes : Map InternalNode)
    → get id nodes ≡ some old
    → (is_completed old.status ≡ true → is_completed new.status ≡ true)
    → completed_at nodes j ≡ true
    → completed_at (set id new nodes) j ≡ true
completed_at-set id j old new nodes e done h = elim (Bool-cases (str_eq id j)) [
  | inl same ↦ ground (arith, get-set id j new nodes, eq_iff id j)
  | inr other ↦ ground (arith, get-set id j new nodes)
]

pub all-completed_at-set :
    (id : String) (old new : InternalNode) (nodes : Map InternalNode) (ds : List String)
    → get id nodes ≡ some old
    → (is_completed old.status ≡ true → is_completed new.status ≡ true)
    → all (completed_at nodes) ds ≡ true
    → all (completed_at (set id new nodes)) ds ≡ true
all-completed_at-set id old new nodes [] e done h = refl
all-completed_at-set id old new nodes (d ∷ ds) e done h = ground (
  arith,
  completed_at-set id d old new nodes e done,
  all-completed_at-set id old new nodes ds e done,
)

-- A write that keeps COMPLETED, at a node whose dependencies are COMPLETED if it gets active.
pub write-InOrder :
    (id : String) (old new : InternalNode) (nodes : Map InternalNode)
    → get id nodes ≡ some old
    → (is_completed old.status ≡ true → is_completed new.status ≡ true)
    → (is_active new.status ≡ true → all (completed_at nodes) new.definition.deps ≡ true)
    → InOrder nodes
    → InOrder (set id new nodes)
write-InOrder id old new nodes e done start o = record {
  deps_done = λ j n g. elim (Bool-cases (str_eq id j)) [
    | inl same ↦
        let p : new ≡ n = ground (arith, get-set id j new nodes) in
        subst
          (λ m.
            is_active m.status ≡ true
            → all (completed_at (set id new nodes)) m.definition.deps ≡ true)
          p
          (λ active.
            all-completed_at-set id old new nodes new.definition.deps e done (start active))
    | inr other ↦ λ active.
        all-completed_at-set id old new nodes n.definition.deps e done
          (o.deps_done j n (ground (arith, get-set id j new nodes)) active)
  ];
}

pub set-InOrder :
    (id : String) (old new : InternalNode) (nodes : Map InternalNode)
    → get id nodes ≡ some old
    → Allowed old new
    → InOrder nodes
    → InOrder (set id new nodes)
set-InOrder id old new nodes e w o =
    write-InOrder id old new nodes e w.done
      (λ active.
        subst (λ d. all (completed_at nodes) d.deps ≡ true) (sym w.same)
          (o.deps_done id old e (w.activity active)))
      o

-- A legal step other than PREPARE neither starts a node nor leaves COMPLETED.
step-Allowed :
    (n : InternalNode) (event : NodeEvent) (s : NodeStatus)
    → event ≢ prepare
    → node_state_machine.transitions n.status event ≡ some s
    → Allowed n (record n { status = s })
unfolding node_state_machine
step-Allowed n event s h e = record { same = refl; activity = ground arith; done = ground arith }

pub put_node-InOrder :
    (id : String) (old new : InternalNode) (x : Exec)
    → get id x.nodes ≡ some old
    → Allowed old new
    → InOrder x.nodes
    → InOrder (put_node id new x).1.nodes
unfolding put_node modify
put_node-InOrder id old new x e w o = set-InOrder id old new x.nodes e w o

pub step-cases :
    (n : InternalNode) (event : NodeEvent)
    → ((s : NodeStatus) × (Transition.transition node_state_machine n.status event ≡ ok s)
        × (node_state_machine.transitions n.status event ≡ some s))
      ⊎ ((e : Transition.IllegalTransition NodeStatus NodeEvent) × (Transition.transition
              node_state_machine n.status event
            ≡ err e))
unfolding Transition.transition
step-cases n event = elim (Option-cases (node_state_machine.transitions n.status event)) [
  | inl e ↦ inr (record { from = n.status; event = event }, rw (e, Transition.transition) refl)
  | inr (s, e) ↦ inl (s, rw (e, Transition.transition) refl, e)
]

pub Keeps-transition :
    (id : String) (event : NodeEvent) → event ≢ prepare → Keeps InOrder (transition id event)
unfolding transition transition_at transition_to throw pure
Keeps-transition id event h = Keeps-read InOrder _ λ x o. elim (Option-cases (get id x.nodes)) [
  | inl e ↦ rw (e, transition_at) o
  | inr (n, e) ↦ elim (step-cases n event) [
    | inl (s, p, q) ↦
        rw (e, transition_at)
          (rw (p, transition_to)
            (put_node-InOrder id n (record n { status = s }) x e (step-Allowed n event s h q) o))
    | inr (_, p) ↦ rw (e, transition_at) (rw (p, transition_to) o)
  ]
]
