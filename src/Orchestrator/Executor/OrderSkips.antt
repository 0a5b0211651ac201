-- ===== src/Orchestrator/Executor/OrderSkips.antt =====
-- `skipNode` and `cascadeSkip` keep the order of dependencies.
use chat_ai.Base.{
  ℕ, zero, suc, String, List, [], ◌∷◌, Option, none, some, refl, inl, inr, Option-cases,
}
use chat_ai.Base.Maps
use chat_ai.Base.Maps.{get}
use chat_ai.Orchestrator.NodeMachine.{skip}
use chat_ai.Orchestrator.Executor.{InternalNode, Action, pure, read}
use chat_ai.Orchestrator.Executor.Skips.{
  set_reason, mark_skipped, cascade_at, cascade_from, cascade_skip_to, cascade_skip, skip_at,
  skip_node,
}
use chat_ai.Orchestrator.Executor.Keeps.{
  Keeps, Keeps-read, Keeps-reads, Keeps-pure, Keeps-emit, Keeps-bind, Keeps-if,
}
use chat_ai.Orchestrator.Executor.Order.{InOrder, Keeps-transition}
use chat_ai.Orchestrator.Executor.OrderNodes.{same_status}

Keeps-set_reason :
    (id reason : String) → Keeps InOrder (read (λ x. set_reason id reason (get id x.nodes)))
unfolding set_reason pure
Keeps-set_reason id reason = Keeps-read InOrder _ λ x o. elim (Option-cases (get id x.nodes)) [
  | inl e ↦ rw (e, set_reason) o
  | inr (n, e) ↦
      rw (e, set_reason)
        (same_status id (λ m. record m { skipped_reason = some reason }) x n (λ m. refl) (λ m. refl)
          e o)
]

Keeps-mark_skipped : (id reason : String) → Keeps InOrder (mark_skipped id reason)
unfolding mark_skipped
Keeps-mark_skipped id reason =
    Keeps-bind InOrder _ _ (Keeps-transition id skip (λ e. cc))
      λ _. Keeps-bind InOrder _ _ (Keeps-set_reason id reason) λ _. Keeps-emit InOrder _

Keeps-cascade_at :
    (again : String → Action (Unit {0})) (id key : String) (o : Option InternalNode)
    → ((j : String) → Keeps InOrder (again j))
    → Keeps InOrder (cascade_at again id key o)
unfolding cascade_at
Keeps-cascade_at again id key none k = Keeps-pure InOrder tt
Keeps-cascade_at again id key (some n) k =
    Keeps-if InOrder _ _ _ (Keeps-bind InOrder _ _ (Keeps-mark_skipped key _) (λ _. k key))
      (Keeps-pure InOrder tt)

Keeps-cascade_from :
    (again : String → Action (Unit {0})) (id : String) (keys : List String)
    → ((j : String) → Keeps InOrder (again j))
    → Keeps InOrder (cascade_from again id keys)
unfolding cascade_from
Keeps-cascade_from again id [] k = Keeps-pure InOrder tt
Keeps-cascade_from again id (key ∷ keys) k =
    Keeps-bind InOrder _ _
      (Keeps-reads InOrder _ (λ x. Keeps-cascade_at again id key (get key x.nodes) k))
      (λ _. Keeps-cascade_from again id keys k)

Keeps-cascade_skip_to : (depth : ℕ) (id : String) → Keeps InOrder (cascade_skip_to depth id)
unfolding cascade_skip_to
Keeps-cascade_skip_to zero id = Keeps-pure InOrder tt
Keeps-cascade_skip_to (suc depth) id = Keeps-reads InOrder _ (λ x.
    Keeps-cascade_from (cascade_skip_to depth) id (Maps.keys x.nodes) (Keeps-cascade_skip_to depth))

Keeps-skip_at : (id reason : String) (o : Option InternalNode) → Keeps InOrder (skip_at id reason o)
unfolding skip_at cascade_skip
Keeps-skip_at id reason none = Keeps-pure InOrder tt
Keeps-skip_at id reason (some n) = Keeps-if InOrder _ _ _ (Keeps-pure InOrder tt) (
    Keeps-bind InOrder _ _ (Keeps-mark_skipped id reason)
      (λ _. Keeps-reads InOrder _ (λ x. Keeps-cascade_skip_to _ id)))

pub Keeps-skip_node : (id reason : String) → Keeps InOrder (skip_node id reason)
unfolding skip_node
Keeps-skip_node id reason = Keeps-reads InOrder _ (λ x. Keeps-skip_at id reason (get id x.nodes))
