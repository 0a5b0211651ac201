-- ===== src/Orchestrator/Executor/Attempts.antt =====
-- The attempts of `executeWithRetry` are as many as the fuel of the loop allows for.
use mathlib.Core.Path.{fun_ext}
use chat_ai.Base.{
  ℕ, zero, suc, ◌+◌, ◌≤◌, Bool, true, false, not, Option, ◌≡◌, refl, ap, arith, if◌then◌else◌, ltb,
  ◌&&◌, ◌||◌, get_or,
}
use chat_ai.Orchestrator.Types.{NodeResult, WorkflowNode, RetryPolicy, default_retry}
use chat_ai.Orchestrator.Retry.{is_retryable}
use chat_ai.Orchestrator.Errors.{Error}
use chat_ai.Orchestrator.Executor.{Action, ◌>>=◌, ◌>>◌, catch, throw}
use chat_ai.Orchestrator.Executor.Env.{Env, Assessment, message, is_fatal}
use chat_ai.Orchestrator.Executor.Jobs.{
  stops, assess_failure, retry_or_give_up, handle_failure, begin_attempt, try_once, attempts,
  execute_with_retry,
}

same_choice :
    {A : Type 0} (b c : Bool) (m n k : A)
    → (if b || not (false && c) then m else n) ≡ (if b || not (false && c) then m else k)
same_choice true c m n k = refl
same_choice false c m n k = refl

module _ (env : Env) where
  last-retry_or_give_up :
      (def : WorkflowNode) (policy : RetryPolicy) (attempt : ℕ) (m n : Action NodeResult)
      (e : Error) (guard : Option Assessment)
      → ltb attempt policy.max_attempts ≡ false
      → retry_or_give_up env def policy attempt m e guard
        ≡ retry_or_give_up env def policy attempt n e guard
  unfolding retry_or_give_up
  last-retry_or_give_up def policy attempt m n e guard h =
      rw (h) (same_choice (stops guard) (is_retryable policy (message e)) _ _ _)

  -- At the last attempt the `catch` block does not try again.
  last-handle_failure :
      (def : WorkflowNode) (policy : RetryPolicy) (attempt : ℕ) (m n : Action NodeResult)
      → ltb attempt policy.max_attempts ≡ false
      → handle_failure env def policy attempt m ≡ handle_failure env def policy attempt n
  unfolding handle_failure
  last-handle_failure def policy attempt m n h = fun_ext (λ e.
      ap
        (λ (k : Option Assessment → Action NodeResult).
          if is_fatal e then throw e else (assess_failure env def e >>= k))
        (fun_ext (λ guard. last-retry_or_give_up def policy attempt m n e guard h)))

  same-attempts :
      (f g : ℕ) (def : WorkflowNode) (policy : RetryPolicy) (attempt : ℕ)
      → policy.max_attempts ≤ attempt + f
      → policy.max_attempts ≤ attempt + g
      → attempts env (suc f) def policy attempt ≡ attempts env (suc g) def policy attempt
  unfolding attempts
  same-attempts zero g def policy attempt p q =
      ap (λ h. begin_attempt env def attempt >> catch (try_once env def attempt) h)
        (last-handle_failure def policy attempt _ _ (ground arith))
  same-attempts (suc f) zero def policy attempt p q =
      ap (λ h. begin_attempt env def attempt >> catch (try_once env def attempt) h)
        (last-handle_failure def policy attempt _ _ (ground arith))
  same-attempts (suc f) (suc g) def policy attempt p q =
      ap
        (λ again.
          begin_attempt env def attempt
          >> catch (try_once env def attempt) (handle_failure env def policy attempt again))
        (same-attempts f g def policy (attempt + 1) (omega arith) (omega arith))

  -- The loop of `executeWithRetry` has fuel enough: with any amount that is not smaller, it does the
  -- same.
  pub enough-attempts :
      (def : WorkflowNode) (attempt fuel : ℕ)
      → (get_or def.retry default_retry).max_attempts ≤ attempt + fuel
      → attempts env (suc fuel) def (get_or def.retry default_retry) attempt
        ≡ execute_with_retry env def attempt
  unfolding execute_with_retry
  enough-attempts def attempt fuel h =
      same-attempts fuel _ def (get_or def.retry default_retry) attempt h (omega arith)
