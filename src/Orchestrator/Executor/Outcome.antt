-- ===== src/Orchestrator/Executor/Outcome.antt =====
-- The status of a run that `finalize` of executor.ts emits and `deriveStatus` returns.
use chat_ai.Base.{Bool, true, false, List, [], ◌∷◌, ◌≡◌, refl, ◌↔◌, all, any, ◌||◌, arith}
use chat_ai.Orchestrator.Types.{NodeStatus, WorkflowRunStatus}
use chat_ai.Orchestrator.NodeMachine.{is_terminal}
use chat_ai.Orchestrator.Executor.Nodes.{
  is_completed, is_failed, is_rolled_back, is_quarantined, is_cancelled, is_skipped, derive_status,
  final_status,
}

abbrev is_failing : NodeStatus → Bool
is_failing s = is_failed s || is_rolled_back s

abbrev is_settled : NodeStatus → Bool
is_settled s = is_completed s || (is_skipped s || is_cancelled s)

abbrev pub is_done : NodeStatus → Bool
is_done s = is_completed s || is_skipped s

settled_of-terminal :
    (s : NodeStatus)
    → is_terminal s ≡ true
    → is_quarantined s ≡ false
    → is_failing s ≡ false
    → is_settled s ≡ true
unfolding is_terminal
settled_of-terminal s t q f = ground arith

all_settled :
    (ss : List NodeStatus)
    → all is_terminal ss ≡ true
    → any is_quarantined ss ≡ false
    → any is_failing ss ≡ false
    → all is_settled ss ≡ true
all_settled [] t q f = refl
all_settled (s ∷ ss) t q f = ground (arith, settled_of-terminal s, all_settled ss)

-- When every node is terminal, the status that the run reports and the one that it ends with agree.
pub final_status-derive_status :
    (ss : List NodeStatus) → all is_terminal ss ≡ true → final_status ss ≡ derive_status ss
unfolding final_status derive_status
final_status-derive_status ss t = ground (arith, all_settled ss t)

done_split :
    (ss : List NodeStatus)
    → all is_settled ss ≡ true
    → any is_cancelled ss ≡ false
    → all is_done ss ≡ true
done_split [] h c = refl
done_split (s ∷ ss) h c = ground (arith, done_split ss)

done_facts :
    (ss : List NodeStatus)
    → all is_done ss ≡ true
    → (any is_quarantined ss ≡ false)
      × (any is_failing ss ≡ false)
      × (any is_cancelled ss ≡ false)
      × (all is_settled ss ≡ true)
done_facts [] h = (refl, refl, refl, refl)
done_facts (s ∷ ss) h =
    let (q, f, c, a) = done_facts ss (ground arith) in
    (ground arith, ground arith, ground arith, ground arith)

-- A run is reported COMPLETED exactly when every node is COMPLETED or SKIPPED.
pub final_completed_iff :
    (ss : List NodeStatus)
    → (final_status ss ≡ WorkflowRunStatus.completed) ↔ (all is_done ss ≡ true)
unfolding final_status
final_completed_iff ss =
    (λ h. ground (arith, done_split ss), λ h. let (q, f, c, a) = done_facts ss h in ground arith)
