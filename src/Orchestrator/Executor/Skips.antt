-- ===== src/Orchestrator/Executor/Skips.antt =====
-- `skipNode` and `cascadeSkip` of executor.ts.
use chat_ai.Base.{
  ℕ, zero, suc, String, not, List, [], ◌∷◌, Option, none, some, ◌<>◌, if◌then◌else◌, includes, ◌&&◌,
  length,
}
use chat_ai.Base.Maps
use chat_ai.Orchestrator.NodeMachine.{skip, is_terminal}
use chat_ai.Orchestrator.Executor.{
  InternalNode, node_skipped, Action, ◌>>◌, pure, read, emit, put_node, transition,
}

unfoldable pub set_reason : String → String → Option InternalNode → Action (Unit {0})
unfolding put_node
set_reason id reason none = pure tt
set_reason id reason (some n) = put_node id (record n { skipped_reason = some reason })

-- The steps that `skipNode` and `cascadeSkip` share.
unfoldable pub mark_skipped : String → String → Action (Unit {0})
unfolding set_reason
mark_skipped id reason = do
  transition id skip
  read (λ x. set_reason id reason (Maps.get id x.nodes))
  emit (node_skipped id reason)

-- One round of the loop of `cascadeSkip(id)`, at the node of the key; `again` is the call of itself.
unfoldable pub cascade_at :
    (String → Action (Unit {0})) → String → String → Option InternalNode → Action (Unit {0})
unfolding mark_skipped
cascade_at again id key none = pure tt
cascade_at again id key (some n) =
    if includes id n.definition.deps && not (is_terminal n.status)
    then (mark_skipped key ("dependency '" <> id <> "' skipped") >> again key)
    else pure tt

unfoldable pub cascade_from :
    (String → Action (Unit {0})) → String → List String → Action (Unit {0})
unfolding cascade_at
cascade_from again id [] = pure tt
cascade_from again id (key ∷ keys) =
    read (λ x. cascade_at again id key (Maps.get key x.nodes)) >> cascade_from again id keys

-- `cascadeSkip` to a depth.
unfoldable pub cascade_skip_to : ℕ → String → Action (Unit {0})
unfolding cascade_from
cascade_skip_to zero id = pure tt
cascade_skip_to (suc depth) id =
    read (λ x. cascade_from (cascade_skip_to depth) id (Maps.keys x.nodes))

-- `cascadeSkip`: a call skips a node that was not terminal before it calls itself, so that the
-- calls are nested no deeper than there are nodes.
unfoldable pub cascade_skip : String → Action (Unit {0})
cascade_skip id = read (λ x. cascade_skip_to (suc (length x.nodes)) id)

unfoldable pub skip_at : String → String → Option InternalNode → Action (Unit {0})
unfolding mark_skipped
skip_at id reason none = pure tt
skip_at id reason (some n) =
    if is_terminal n.status then pure tt else (mark_skipped id reason >> cascade_skip id)

-- `skipNode`.
unfoldable pub skip_node : String → String → Action (Unit {0})
unfolding skip_at
skip_node id reason = read (λ x. skip_at id reason (Maps.get id x.nodes))
