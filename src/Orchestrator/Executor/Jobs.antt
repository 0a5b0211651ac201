-- ===== src/Orchestrator/Executor/Jobs.antt =====
-- `failNode`, `compensateUpstream`, `executeWithRetry` and `runJob` of executor.ts.
use chat_ai.Base.{
  ℕ, zero, suc, ◌+◌, ◌-◌, String, Bool, true, false, not, List, [], ◌∷◌, ◌++◌, Option, none, some,
  if◌then◌else◌, get_or, ltb, str_eq, ◌&&◌, ◌||◌, reverse,
}
use chat_ai.Base.Maps
use chat_ai.Orchestrator.Json.{Json}
use chat_ai.Orchestrator.Types.{
  NodeStatus, ready, running, waiting, verifying, retrying, NodeResult, WorkflowNode,
  CompensationSpec, undo, default_retry, RetryPolicy,
}
use chat_ai.Orchestrator.NodeMachine.{
  start, verify, fail, retry, resume, compensate, rollback, quarantine,
}
use chat_ai.Orchestrator.Retry.{is_retryable, backoff_ms, compensation_for}
use chat_ai.Orchestrator.Errors.{Error, node_failure, out_of_fuel}
use chat_ai.Orchestrator.Executor.{
  InternalNode, node_running, node_verified, node_failed, node_retrying, node_compensating,
  node_rolled_back, node_compensated, node_quarantined, Action, ◌>>=◌, ◌>>◌, pure, throw, modify,
  read, catch, emit, transition,
}
use chat_ai.Orchestrator.Executor.Nodes.{is_completed}
use chat_ai.Orchestrator.Executor.Env.{
  Env, Assessment, message, is_fatal, external, persist, before_start,
}
use chat_ai.Orchestrator.Executor.Work.{or_empty, update_node, run_node_action}

unfoldable pub fail_transition : String → NodeStatus → Action (Unit {0})
fail_transition id running = transition id fail
fail_transition id verifying = transition id fail
fail_transition id waiting = transition id fail
fail_transition id ready = transition id start >> transition id fail
fail_transition id _ = pure tt

unfoldable pub status_at : Option InternalNode → NodeStatus
status_at none = NodeStatus.planned
status_at (some n) = n.status

unfoldable pub stops : Option Assessment → Bool
stops none = false
stops (some g) = g.stop

quarantines : Option Assessment → Bool
quarantines none = false
quarantines (some g) = g.quarantine

-- `guard.reason ?? error`.
guard_reason : Option Assessment → String → String
guard_reason none error = error
guard_reason (some g) error = get_or g.reason error

unfoldable pub is_retrying : NodeStatus → Bool
is_retrying retrying = true
is_retrying _ = false

module _ (env : Env) where
  -- `try { await this.handler.run(…) } catch { }`.
  unfoldable pub run_quietly : String → Option Json → WorkflowNode → Action (Unit {0})
  run_quietly action input def =
      catch
        (external env (λ n. (env.run n action (some (or_empty input)) def).outcome) >>= λ r.
          pure tt)
        (λ e. pure tt)

  unfoldable pub undo_spec : String → WorkflowNode → Option CompensationSpec → Action (Unit {0})
  unfolding run_quietly
  undo_spec id def (some (undo action input)) = do
    run_quietly action input def
    modify (λ x. record x { compensated = x.compensated ++ id ∷ [] })
    emit (node_compensated id action)
  undo_spec id def _ = pure tt

  unfoldable pub undo_at : String → Option InternalNode → Action (Unit {0})
  unfolding undo_spec
  undo_at id none = pure tt
  undo_at id (some n) =
      if is_completed n.status
      then undo_spec id n.definition (compensation_for n.definition env.registry)
      else pure tt

  unfoldable pub undo_each : String → List String → Action (Unit {0})
  unfolding undo_at
  undo_each failed_id [] = pure tt
  undo_each failed_id (id ∷ ids) =
      (if str_eq id failed_id then pure tt else read (λ x. undo_at id (Maps.get id x.nodes)))
      >> undo_each failed_id ids

  -- `compensateUpstream`.
  unfoldable pub compensate_upstream : String → Action (Unit {0})
  unfolding undo_each
  compensate_upstream failed_id = read (λ x. undo_each failed_id (reverse x.completion_order))

  unfoldable pub compensate_or_fail :
      WorkflowNode → String → Option CompensationSpec → Action (Unit {0})
  unfolding run_quietly
  compensate_or_fail def error (some (undo action input)) = do
    transition def.id compensate
    emit (node_compensating def.id action)
    persist env
    run_quietly action input def
    transition def.id rollback
    emit (node_rolled_back def.id error)
    compensate_upstream def.id
    persist env
  compensate_or_fail def error _ = emit (node_failed def.id error) >> persist env

  -- `failNode`.
  unfoldable pub fail_node : WorkflowNode → String → Bool → Action (Unit {0})
  unfolding fail_transition status_at compensate_or_fail
  fail_node def error quarantined = do
    read (λ x. fail_transition def.id (status_at (Maps.get def.id x.nodes)))
    update_node (λ n. record n { error = some error }) def.id
    if quarantined
        then (transition def.id quarantine >> emit (node_quarantined def.id error) >> persist env)
        else compensate_or_fail def error (compensation_for def env.registry)

  unfoldable pub assessed :
      Option (String → ℕ → String → Assessment) → String → ℕ → String → Option Assessment
  assessed none id failures error = none
  assessed (some f) id failures error = some (f id failures error)

  unfoldable pub failures_at : Option InternalNode → ℕ
  failures_at none = 0
  failures_at (some n) = n.failure_count

  -- The `try` block of a round of `executeWithRetry`.
  unfoldable pub try_once : WorkflowNode → ℕ → Action NodeResult
  try_once def attempt = do
    before_start env def.id attempt
    r ← run_node_action env def
    transition def.id verify
    emit (node_verified def.id r)
    persist env
    pure r

  unfoldable pub begin_attempt : WorkflowNode → ℕ → Action (Unit {0})
  unfolding is_retrying status_at
  begin_attempt def attempt = do
    update_node (λ n. record n { attempt = attempt }) def.id
    read (λ x.
        transition def.id
          (if is_retrying (status_at (Maps.get def.id x.nodes)) then resume else start))
    emit (node_running def.id attempt)
    persist env

  -- The `catch` block when the error is final.
  unfoldable pub give_up : WorkflowNode → String → Option Assessment → Action NodeResult
  unfolding stops quarantines guard_reason
  give_up def error guard = do
    fail_node def (if stops guard then guard_reason guard error else error) (quarantines guard)
    throw (node_failure error)

  -- The `catch` block when the node is tried again.
  unfoldable pub prepare_retry : WorkflowNode → RetryPolicy → ℕ → String → Action (Unit {0})
  prepare_retry def policy attempt error = do
    transition def.id fail
    transition def.id retry
    read (λ x.
        emit (node_retrying def.id attempt (backoff_ms policy attempt (env.rng x.calls)) error))
    persist env

  -- The failure is counted and the guard is asked.
  unfoldable pub assess_failure : WorkflowNode → Error → Action (Option Assessment)
  unfolding assessed failures_at
  assess_failure def e = do
    update_node (λ n. record n { failure_count = n.failure_count + 1 }) def.id
    read
        (λ x. pure (assessed env.assess def.id (failures_at (Maps.get def.id x.nodes)) (message e)))

  unfoldable pub retry_or_give_up :
      WorkflowNode
      → RetryPolicy
      → ℕ
      → Action NodeResult
      → Error
      → Option Assessment
      → Action NodeResult
  unfolding give_up prepare_retry stops
  retry_or_give_up def policy attempt again e guard =
      if stops guard || not (ltb attempt policy.max_attempts && is_retryable policy (message e))
      then give_up def (message e) guard
      else (prepare_retry def policy attempt (message e) >> again)

  -- The `catch` block of a round.
  unfoldable pub handle_failure :
      WorkflowNode → RetryPolicy → ℕ → Action NodeResult → Error → Action NodeResult
  unfolding assess_failure retry_or_give_up
  handle_failure def policy attempt again e =
      if is_fatal e
      then throw e
      else (assess_failure def e >>= retry_or_give_up def policy attempt again e)

  -- The loop of `executeWithRetry`.
  unfoldable pub attempts : ℕ → WorkflowNode → RetryPolicy → ℕ → Action NodeResult
  unfolding begin_attempt handle_failure
  attempts zero def policy attempt = throw out_of_fuel
  attempts (suc fuel) def policy attempt =
      let again = attempts fuel def policy (attempt + 1) in
      begin_attempt def attempt
      >> catch (try_once def attempt) (handle_failure def policy attempt again)

  -- `executeWithRetry`: an attempt is repeated only while it is below `maxAttempts`.
  unfoldable pub execute_with_retry : WorkflowNode → ℕ → Action NodeResult
  execute_with_retry def attempt =
      let policy : RetryPolicy = get_or def.retry default_retry in
      attempts (suc (policy.max_attempts - attempt)) def policy attempt
