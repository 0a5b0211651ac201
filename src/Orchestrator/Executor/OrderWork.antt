-- ===== src/Orchestrator/Executor/OrderWork.antt =====
-- The work on a node keeps the order of dependencies.
use chat_ai.Base.{
  ℕ, String, Bool, true, false, List, [], ◌∷◌, Option, none, some, Result, ok, err, ◌≡◌, refl, inl,
  inr, Option-cases,
}
use chat_ai.Base.Maps.{get}
use chat_ai.Orchestrator.Json.{Json}
use chat_ai.Orchestrator.Types.{
  NodeResult, WorkflowNode, WorkflowNodeKind, conditional, approval, ConditionSpec, ApprovalSpec,
  NodeResultStatus, success, failure,
}
use chat_ai.Orchestrator.NodeMachine.{wait, approve, deny}
use chat_ai.Orchestrator.Errors.{Error}
use chat_ai.Orchestrator.Executor.{InternalNode, Exec, pure}
use chat_ai.Orchestrator.Executor.Env.{Env, cancelled_by, cancel_run, result_or, external, persist}
use chat_ai.Orchestrator.Executor.Work.{
  update_at, update_node, skip_each, or_throw, unless_failed, unless_failure, resolved,
  resolve_input, run_with_timeout, ask, answer, request_approval, run_approval, condition_source,
  run_conditional, approved_first, run_action, run_kind,
}
use chat_ai.Orchestrator.Executor.Keeps.{
  Keeps, Keeps-modify, Keeps-read, Keeps-reads, Keeps-pure, Keeps-throw, Keeps-emit, Keeps-bind,
  keeps_rules,
}
use chat_ai.Orchestrator.Executor.Order.{InOrder, Keeps-transition}
use chat_ai.Orchestrator.Executor.OrderNodes.{same_status}
use chat_ai.Orchestrator.Executor.OrderSkips.{Keeps-skip_node}

cancelled_by-nodes : (o : Option String) (x : Exec) → (cancelled_by o x).nodes ≡ x.nodes
unfolding cancelled_by cancel_run
cancelled_by-nodes none x = refl
cancelled_by-nodes (some r) x = refl

pub Keeps-result_or : {A : Type 0} (r : Result Error A) → Keeps InOrder (result_or r)
unfolding result_or
Keeps-result_or (ok a) = Keeps-pure InOrder a
Keeps-result_or (err e) = Keeps-throw InOrder e

pub Keeps-update_node :
    (f : InternalNode → InternalNode) (id : String)
    → ((m : InternalNode) → (f m).definition ≡ m.definition)
    → ((m : InternalNode) → (f m).status ≡ m.status)
    → Keeps InOrder (update_node f id)
unfolding update_node update_at pure
Keeps-update_node f id d s = Keeps-read InOrder _ λ x o. elim (Option-cases (get id x.nodes)) [
  | inl e ↦ rw (e, update_at) o
  | inr (n, e) ↦ rw (e, update_at) (same_status id f x n d s e o)
]

Keeps-skip_each : (reason : String) (ids : List String) → Keeps InOrder (skip_each reason ids)
unfolding skip_each
Keeps-skip_each reason [] = Keeps-pure InOrder tt
Keeps-skip_each reason (id ∷ ids) =
    Keeps-bind InOrder _ _ (Keeps-skip_node id reason) (λ _. Keeps-skip_each reason ids)

Keeps-or_throw : {A : Type 0} (o : Option A) (e : Error) → Keeps InOrder (or_throw o e)
unfolding or_throw
Keeps-or_throw none e = Keeps-throw InOrder e
Keeps-or_throw (some a) e = Keeps-pure InOrder a

Keeps-resolved :
    (o : Option (String × String)) (input : Option Json) → Keeps InOrder (resolved o input)
unfolding resolved
Keeps-resolved none input = Keeps-pure InOrder _
Keeps-resolved (some (id, path)) input = search (keeps_rules, Keeps-or_throw)

Keeps-resolve_input : (def : WorkflowNode) → Keeps InOrder (resolve_input def)
unfolding resolve_input
Keeps-resolve_input def = Keeps-resolved _ def.input

Keeps-unless_failed : (s : NodeResultStatus) (r : NodeResult) → Keeps InOrder (unless_failed s r)
unfolding unless_failed
Keeps-unless_failed success r = Keeps-pure InOrder r
Keeps-unless_failed failure r = Keeps-throw InOrder _

Keeps-unless_failure : (r : NodeResult) → Keeps InOrder (unless_failure r)
unfolding unless_failure
Keeps-unless_failure r = Keeps-unless_failed r.status r

module _ (env : Env) where
  pub Keeps-external : {A : Type 0} (f : ℕ → Result Error A) → Keeps InOrder (external env f)
  unfolding external
  Keeps-external f = Keeps-reads InOrder _ λ x.
      Keeps-bind InOrder _ _ (Keeps-modify InOrder _ (λ y. cancelled_by-nodes _ _))
        (λ _. Keeps-result_or _)

  pub Keeps-persist : Keeps InOrder (persist env)
  unfolding persist
  Keeps-persist = Keeps-external _

  Keeps-ask :
      (f : Option (ℕ → ApprovalSpec → String → Result Error Bool)) (req : ApprovalSpec)
      (id : String)
      → Keeps InOrder (ask env f req id)
  unfolding ask
  Keeps-ask none req id = Keeps-pure InOrder _
  Keeps-ask (some f) req id = Keeps-external _

  Keeps-answer : (id : String) (req : ApprovalSpec) (b : Bool) → Keeps InOrder (answer env id req b)
  unfolding answer
  Keeps-answer id req true =
      Keeps-bind InOrder _ _ (Keeps-transition id approve (λ e. cc)) (λ _. Keeps-emit InOrder _)
  Keeps-answer id req false =
      Keeps-bind InOrder _ _ (Keeps-transition id deny (λ e. cc)) (λ _. Keeps-emit InOrder _)

  Keeps-request_approval :
      (def : WorkflowNode) (action : String) → Keeps InOrder (request_approval env def action)
  unfolding request_approval
  Keeps-request_approval def action =
      Keeps-bind InOrder _ _ (Keeps-transition def.id wait (λ e. cc))
        λ _. search (keeps_rules, Keeps-persist, Keeps-ask, Keeps-answer) depth 12

  Keeps-run_approval : (def : WorkflowNode) → Keeps InOrder (run_approval env def)
  unfolding run_approval
  Keeps-run_approval def = search (keeps_rules, Keeps-request_approval)

  Keeps-condition_source :
      (o : Option String) (cond : ConditionSpec) (def : WorkflowNode)
      → Keeps InOrder (condition_source env o cond def)
  unfolding condition_source run_with_timeout
  Keeps-condition_source (some a) cond def =
      search (keeps_rules, Keeps-resolve_input, Keeps-external)
  Keeps-condition_source none cond def = search (keeps_rules, Keeps-or_throw)

  Keeps-run_conditional : (def : WorkflowNode) → Keeps InOrder (run_conditional env def)
  unfolding run_conditional
  Keeps-run_conditional def =
      search (keeps_rules, Keeps-or_throw, Keeps-condition_source, Keeps-skip_each)

  Keeps-approved_first :
      (b : Bool) (def : WorkflowNode) (action : String)
      → Keeps InOrder (approved_first env b def action)
  unfolding approved_first
  Keeps-approved_first false def action = Keeps-pure InOrder tt
  Keeps-approved_first true def action = search (keeps_rules, Keeps-request_approval)

  Keeps-run_action : (def : WorkflowNode) → Keeps InOrder (run_action env def)
  unfolding run_action run_with_timeout
  Keeps-run_action def =
      search (
        keeps_rules, Keeps-approved_first, Keeps-resolve_input, Keeps-external,
        Keeps-unless_failure,
      )

  pub Keeps-run_kind :
      (k : WorkflowNodeKind) (def : WorkflowNode) → Keeps InOrder (run_kind env k def)
  unfolding run_kind
  Keeps-run_kind conditional def = Keeps-run_conditional def
  Keeps-run_kind approval def = Keeps-run_approval def
  Keeps-run_kind WorkflowNodeKind.action def = Keeps-run_action def
