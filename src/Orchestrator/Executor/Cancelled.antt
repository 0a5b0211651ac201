-- ===== src/Orchestrator/Executor/Cancelled.antt =====
-- What `cancelAll` of executor.ts leaves: no node that can still be worked on.
use chat_ai.Base.{
  String, Bool, true, false, List, [], ◌∷◌, Option, none, some, ok, ◌≡◌, refl, ap, inl, inr, arith,
  if◌then◌else◌, includes, Bool-cases, str_eq, eq_iff, ◌∙◌, ◌||◌,
}
use chat_ai.Base.Maps.{Map, get, set, keys, get-set}
use chat_ai.Orchestrator.Types.{NodeStatus}
use chat_ai.Orchestrator.NodeMachine.{is_terminal}
use chat_ai.Orchestrator.Executor.{
  InternalNode, Exec, Action, ◌>>=◌, ◌>>◌, pure, read, modify, emit, put_node, continue,
  run_cancelled,
}
use chat_ai.Orchestrator.Executor.Nodes.{cancel_node, cancel_from, cancel_all}

abbrev pub cancelled_node : InternalNode → InternalNode
cancelled_node n = if is_terminal n.status then n else record n { status = NodeStatus.cancelled }

cancelled_at : Bool → Option InternalNode → Option InternalNode
cancelled_at false o = o
cancelled_at true none = none
cancelled_at true (some n) = some (cancelled_node n)

cancel_one : String → Option InternalNode → Map InternalNode → Map InternalNode
cancel_one id none m = m
cancel_one id (some n) m =
    if is_terminal n.status then m else set id (record n { status = NodeStatus.cancelled }) m

cancel_each : List String → Map InternalNode → Map InternalNode
unfolding cancel_one
cancel_each [] m = m
cancel_each (id ∷ ids) m = cancel_each ids (cancel_one id (get id m) m)

-- An action that returns without a result, with what it does to the nodes.
Does : Action (Unit {0}) → Exec → Map InternalNode → Type 0
Does m x nodes = ((m x).0 ≡ ok tt) × ((m x).1.nodes ≡ nodes)

cancel_node-Does :
    (reason id : String) (o : Option InternalNode) (x : Exec)
    → Does (cancel_node reason id o) x (cancel_one id o x.nodes)
unfolding Does cancel_node cancel_one pure ◌>>=◌ put_node modify emit continue
cancel_node-Does reason id none x = (refl, refl)
cancel_node-Does reason id (some n) x = elim (Bool-cases (is_terminal n.status)) [
  | inl t ↦ rw (t, cancel_node, cancel_one) (refl, refl)
  | inr f ↦ rw (f, cancel_node, cancel_one) (refl, refl)
]

then-Does :
    (m k : Action (Unit {0})) (x : Exec) (nodes : Map InternalNode)
    (f : Map InternalNode → Map InternalNode)
    → Does m x nodes
    → ((y : Exec) → Does k y (f y.nodes))
    → Does (m >> k) x (f nodes)
unfolding Does ◌>>=◌ continue
then-Does m k x nodes f d kd = rw (d.0, continue) ((kd (m x).1).0, (kd (m x).1).1 ∙ ap f d.1)

cancel_from-Does :
    (reason : String) (ids : List String) (x : Exec)
    → Does (cancel_from reason ids) x (cancel_each ids x.nodes)
unfolding cancel_from cancel_each Does pure read
cancel_from-Does reason [] x = (refl, refl)
cancel_from-Does reason (id ∷ ids) x =
    then-Does _ (cancel_from reason ids) x (cancel_one id (get id x.nodes) x.nodes)
      (cancel_each ids) (cancel_node-Does reason id (get id x.nodes) x)
      (cancel_from-Does reason ids)

cancel_one-at :
    (id j : String) (m : Map InternalNode) (o : Option InternalNode)
    → get id m ≡ o
    → get j (cancel_one id o m) ≡ cancelled_at (str_eq id j) (get j m)
unfolding cancel_one cancelled_at
cancel_one-at id j m none e = ground (arith, eq_iff id j)
cancel_one-at id j m (some n) e =
    ground (arith, eq_iff id j, get-set id j (record n { status = NodeStatus.cancelled }) m)

cancelled_at_twice :
    (a b : Bool) (o : Option InternalNode)
    → cancelled_at b (cancelled_at a o) ≡ cancelled_at (a || b) o
unfolding cancelled_at is_terminal
cancelled_at_twice a b none = ground arith
cancelled_at_twice a b (some n) = ground arith

cancel_each-at :
    (ids : List String) (j : String) (m : Map InternalNode)
    → get j (cancel_each ids m) ≡ cancelled_at (includes j ids) (get j m)
unfolding cancel_each cancelled_at
cancel_each-at [] j m = refl
cancel_each-at (id ∷ ids) j m =
    let n = cancel_one id (get id m) m in
    cancel_each-at ids j n
    ∙ ap (cancelled_at (includes j ids)) (cancel_one-at id j m (get id m) refl)
    ∙ cancelled_at_twice (str_eq id j) (includes j ids) (get j m)

includes-keys :
    (j : String) (n : InternalNode) (m : Map InternalNode)
    → get j m ≡ some n
    → includes j (keys m) ≡ true
unfolding get keys
includes-keys j n [] e = ground arith
includes-keys j n ((i, k) ∷ m) e = ground (arith, includes-keys j n m)

emit-Does :
    (reason : String) (y : Exec) → Does (read (λ x. emit (run_cancelled x.run_id reason))) y y.nodes
unfolding Does read emit modify
emit-Does reason y = (refl, refl)

cancel_all-Does :
    (reason : String) (x : Exec) → Does (cancel_all reason) x (cancel_each (keys x.nodes) x.nodes)
unfolding cancel_all read keys Does
cancel_all-Does reason x =
    then-Does (read (λ y. cancel_from reason (keys y.nodes))) _ x
      (cancel_each (keys x.nodes) x.nodes) (λ m. m) (cancel_from-Does reason (keys x.nodes) x)
      (emit-Does reason)

-- `cancelAll` leaves a terminal node as it is, and makes every other node CANCELLED.
pub cancel_all-get :
    (reason : String) (x : Exec) (id : String) (n : InternalNode)
    → get id x.nodes ≡ some n
    → get id (cancel_all reason x).1.nodes ≡ some (cancelled_node n)
unfolding Does cancelled_at
cancel_all-get reason x id n e =
    ap (get id) (cancel_all-Does reason x).1
    ∙ cancel_each-at (keys x.nodes) id x.nodes
    ∙ rw (e, includes-keys id n x.nodes e, cancelled_at) refl
