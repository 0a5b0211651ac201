-- ===== src/Orchestrator/Executor/OrderJobs.antt =====
-- Compensation, retries and failures keep the order of dependencies.
use chat_ai.Base.{
  ℕ, zero, suc, String, Bool, true, false, List, [], ◌∷◌, Option, none, some, refl, if◌then◌else◌,
  str_eq,
}
use chat_ai.Orchestrator.Json.{Json}
use chat_ai.Orchestrator.Types.{
  NodeStatus, ready, running, waiting, verifying, NodeResult, WorkflowNode, CompensationSpec, undo,
  irreversible, RetryPolicy,
}
use chat_ai.Orchestrator.NodeMachine.{
  start, verify, fail, retry, resume, compensate, rollback, quarantine,
}
use chat_ai.Orchestrator.Retry.{compensation_for}
use chat_ai.Orchestrator.Errors.{Error, out_of_fuel}
use chat_ai.Orchestrator.Executor.{InternalNode, node_quarantined, Action, ◌>>◌, emit, transition}
use chat_ai.Orchestrator.Executor.Env.{Env, Assessment, persist, before_start}
use chat_ai.Orchestrator.Executor.Work.{run_node_action}
use chat_ai.Orchestrator.Executor.Jobs.{
  assess_failure, retry_or_give_up, fail_transition, run_quietly, undo_spec, undo_at, undo_each,
  compensate_upstream, compensate_or_fail, fail_node, try_once, begin_attempt, give_up,
  prepare_retry, handle_failure, attempts, execute_with_retry, is_retrying,
}
use chat_ai.Orchestrator.Executor.Keeps.{
  Keeps, Keeps-modify, Keeps-reads, Keeps-pure, Keeps-throw, Keeps-emit, Keeps-bind, Keeps-if,
  Keeps-catch, keeps_rules,
}
use chat_ai.Orchestrator.Executor.Order.{InOrder, Keeps-transition}
use chat_ai.Orchestrator.Executor.OrderWork.{
  Keeps-external, Keeps-persist, Keeps-update_node, Keeps-run_kind,
}

Keeps-fail : (id : String) → Keeps InOrder (transition id fail)
Keeps-fail id = Keeps-transition id fail (λ e. cc)

Keeps-fail_transition : (id : String) (s : NodeStatus) → Keeps InOrder (fail_transition id s)
unfolding fail_transition
Keeps-fail_transition id running = Keeps-fail id
Keeps-fail_transition id verifying = Keeps-fail id
Keeps-fail_transition id waiting = Keeps-fail id
Keeps-fail_transition id ready =
    Keeps-bind InOrder _ _ (Keeps-transition id start (λ e. cc)) (λ _. Keeps-fail id)
Keeps-fail_transition id _ = Keeps-pure InOrder tt

Keeps-restart :
    (again : Bool) (id : String) → Keeps InOrder (transition id (if again then resume else start))
Keeps-restart true id = Keeps-transition id resume (λ e. cc)
Keeps-restart false id = Keeps-transition id start (λ e. cc)

module _ (env : Env) where
  Keeps-run_quietly :
      (action : String) (input : Option Json) (def : WorkflowNode)
      → Keeps InOrder (run_quietly env action input def)
  unfolding run_quietly
  Keeps-run_quietly action input def = search (keeps_rules, Keeps-external)

  Keeps-undo_spec :
      (id : String) (def : WorkflowNode) (o : Option CompensationSpec)
      → Keeps InOrder (undo_spec env id def o)
  unfolding undo_spec
  Keeps-undo_spec id def none = Keeps-pure InOrder tt
  Keeps-undo_spec id def (some irreversible) = Keeps-pure InOrder tt
  Keeps-undo_spec id def (some (undo action input)) =
      Keeps-bind InOrder _ _ (Keeps-run_quietly action input def)
        λ _. Keeps-bind InOrder _ _ (Keeps-modify InOrder _ (λ x. refl)) λ _. Keeps-emit InOrder _

  Keeps-undo_at : (id : String) (o : Option InternalNode) → Keeps InOrder (undo_at env id o)
  unfolding undo_at
  Keeps-undo_at id none = Keeps-pure InOrder tt
  Keeps-undo_at id (some n) = search (keeps_rules, Keeps-undo_spec)

  Keeps-undo_each :
      (failed_id : String) (ids : List String) → Keeps InOrder (undo_each env failed_id ids)
  unfolding undo_each
  Keeps-undo_each failed_id [] = Keeps-pure InOrder tt
  Keeps-undo_each failed_id (id ∷ ids) =
      Keeps-bind InOrder _ _
        (Keeps-if InOrder (str_eq id failed_id) _ _ (Keeps-pure InOrder tt)
          (Keeps-reads InOrder _ (λ x. Keeps-undo_at id _)))
        (λ _. Keeps-undo_each failed_id ids)

  Keeps-compensate_upstream :
      (failed_id : String) → Keeps InOrder (compensate_upstream env failed_id)
  unfolding compensate_upstream
  Keeps-compensate_upstream failed_id = Keeps-reads InOrder _ (λ x. Keeps-undo_each failed_id _)

  Keeps-compensate_or_fail :
      (def : WorkflowNode) (error : String) (o : Option CompensationSpec)
      → Keeps InOrder (compensate_or_fail env def error o)
  unfolding compensate_or_fail
  Keeps-compensate_or_fail def error none = search (keeps_rules, Keeps-persist)
  Keeps-compensate_or_fail def error (some irreversible) = search (keeps_rules, Keeps-persist)
  Keeps-compensate_or_fail def error (some (undo action input)) =
      Keeps-bind InOrder _ _ (Keeps-transition def.id compensate (λ e. cc)) λ _.
        Keeps-bind InOrder _ _ (Keeps-emit InOrder _) λ _.
          Keeps-bind InOrder _ _ (Keeps-persist env) λ _.
            Keeps-bind InOrder _ _ (Keeps-run_quietly action input def) λ _.
              Keeps-bind InOrder _ _ (Keeps-transition def.id rollback (λ e. cc))
                λ _. search (keeps_rules, Keeps-persist, Keeps-compensate_upstream) depth 10

  Keeps-quarantine :
      (def : WorkflowNode) (error : String)
      → Keeps InOrder
          (transition def.id quarantine >> emit (node_quarantined def.id error) >> persist env)
  Keeps-quarantine def error =
      Keeps-bind InOrder _ _
        (Keeps-bind InOrder _ _ (Keeps-transition def.id quarantine (λ e. cc))
          (λ _. Keeps-emit InOrder _))
        (λ _. Keeps-persist env)

  pub Keeps-fail_node :
      (def : WorkflowNode) (error : String) (quarantined : Bool)
      → Keeps InOrder (fail_node env def error quarantined)
  unfolding fail_node
  Keeps-fail_node def error quarantined =
      Keeps-bind InOrder _ _ (Keeps-reads InOrder _ (λ x. Keeps-fail_transition def.id _)) λ _.
        Keeps-bind InOrder _ _ (Keeps-update_node _ def.id (λ m. refl) (λ m. refl)) λ _.
          Keeps-if InOrder quarantined _ _ (Keeps-quarantine def error)
            (Keeps-compensate_or_fail def error (compensation_for def env.registry))

  Keeps-try_once : (def : WorkflowNode) (attempt : ℕ) → Keeps InOrder (try_once env def attempt)
  unfolding try_once before_start run_node_action
  Keeps-try_once def attempt = Keeps-bind InOrder _ _ (Keeps-external env _) λ _.
      Keeps-bind InOrder _ _ (Keeps-run_kind env def.kind def) λ r.
        Keeps-bind InOrder _ _ (Keeps-transition def.id verify (λ e. cc))
          (λ _. search (keeps_rules, Keeps-persist) depth 8)

  Keeps-begin_attempt :
      (def : WorkflowNode) (attempt : ℕ) → Keeps InOrder (begin_attempt env def attempt)
  unfolding begin_attempt
  Keeps-begin_attempt def attempt =
      Keeps-bind InOrder _ _ (Keeps-update_node _ def.id (λ m. refl) (λ m. refl)) λ _.
        Keeps-bind InOrder _ _ (Keeps-reads InOrder _ (λ x. Keeps-restart (is_retrying _) def.id))
          (λ _. search (keeps_rules, Keeps-persist) depth 8)

  Keeps-prepare_retry :
      (def : WorkflowNode) (policy : RetryPolicy) (attempt : ℕ) (error : String)
      → Keeps InOrder (prepare_retry env def policy attempt error)
  unfolding prepare_retry
  Keeps-prepare_retry def policy attempt error = Keeps-bind InOrder _ _ (Keeps-fail def.id) λ _.
      Keeps-bind InOrder _ _ (Keeps-transition def.id retry (λ e. cc))
        (λ _. search (keeps_rules, Keeps-persist) depth 8)

  Keeps-give_up :
      (def : WorkflowNode) (error : String) (guard : Option Assessment)
      → Keeps InOrder (give_up env def error guard)
  unfolding give_up
  Keeps-give_up def error guard = search (keeps_rules, Keeps-fail_node)

  Keeps-assess_failure : (def : WorkflowNode) (e : Error) → Keeps InOrder (assess_failure env def e)
  unfolding assess_failure
  Keeps-assess_failure def e =
      Keeps-bind InOrder _ _ (Keeps-update_node _ def.id (λ m. refl) (λ m. refl))
        (λ _. Keeps-reads InOrder _ (λ x. Keeps-pure InOrder _))

  Keeps-retry_or_give_up :
      (def : WorkflowNode) (policy : RetryPolicy) (attempt : ℕ) (again : Action NodeResult)
      (e : Error) (guard : Option Assessment)
      → Keeps InOrder again
      → Keeps InOrder (retry_or_give_up env def policy attempt again e guard)
  unfolding retry_or_give_up
  Keeps-retry_or_give_up def policy attempt again e guard k =
      search (keeps_rules, Keeps-give_up, Keeps-prepare_retry)

  Keeps-handle_failure :
      (def : WorkflowNode) (policy : RetryPolicy) (attempt : ℕ) (again : Action NodeResult)
      (e : Error)
      → Keeps InOrder again
      → Keeps InOrder (handle_failure env def policy attempt again e)
  unfolding handle_failure
  Keeps-handle_failure def policy attempt again e k =
      Keeps-if InOrder _ _ _ (Keeps-throw InOrder e) (
        Keeps-bind InOrder _ _ (Keeps-assess_failure def e)
          (λ guard. Keeps-retry_or_give_up def policy attempt again e guard k))

  Keeps-attempts :
      (fuel : ℕ) (def : WorkflowNode) (policy : RetryPolicy) (attempt : ℕ)
      → Keeps InOrder (attempts env fuel def policy attempt)
  unfolding attempts
  Keeps-attempts zero def policy attempt = Keeps-throw InOrder out_of_fuel
  Keeps-attempts (suc fuel) def policy attempt =
      Keeps-bind InOrder _ _ (Keeps-begin_attempt def attempt) λ _.
        Keeps-catch InOrder _ _ (Keeps-try_once def attempt)
          λ e. Keeps-handle_failure def policy attempt _ e (Keeps-attempts fuel def policy _)

  pub Keeps-execute_with_retry :
      (def : WorkflowNode) (attempt : ℕ) → Keeps InOrder (execute_with_retry env def attempt)
  unfolding execute_with_retry
  Keeps-execute_with_retry def attempt = Keeps-attempts _ def _ attempt
