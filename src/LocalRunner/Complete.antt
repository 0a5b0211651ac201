-- ===== src/LocalRunner/Complete.antt =====
-- The loop of `LocalRunner.run`: one result for each step, and a failure where it stops early.
use chat_ai.Base.{
  ℕ, ◌+◌, String, Bool, List, [], ◌∷◌, ◌++◌, ◌<>◌, Result, ok, err, ◌≡◌, subst, arith, inl, inr,
  Bool-cases, Result-cases, length, length-append, All,
}
use chat_ai.Economics.{UsageResource, budget_allows}
use chat_ai.Policy.{PolicyDecision}
use chat_ai.Execution.{OutcomeStatus, Outcome, World, fail, execute}
use chat_ai.Immune.Types.{ImmuneDecision}
use chat_ai.Immune.Runtime.{ImmuneRuntime, RuntimeError, CallStamp, action_name}
use chat_ai.Immune.Gate.{join}
use chat_ai.LocalRunner.{
  RunStep, Setup, RunState, StepEnd, RunnerEvent, next, halt, executor_threw, immune_threw,
  approves, guarded, append, refuse, meter, policy_decision, resolve_input, context_for,
  approval_granted, approval_required, approval_denied, capability_rejected, immune_blocked,
}
use chat_ai.LocalRunner.Loop.{
  after_execute, after_gate, immune_decision, after_approval, after_answer, after_policy, run_step,
  follow, run_steps,
}

abbrev pub AllSucceeded : List Outcome → Type 0
AllSucceeded rs = All (λ (r : Outcome). r.status ≡ OutcomeStatus.success) rs

last_failed : (rs : List Outcome) (reason : String) → ¬ AllSucceeded (rs ++ fail reason ∷ [])
unfolding fail
last_failed [] reason h = let bad = h.0 in ground (arith, bad)
last_failed (r ∷ rs) reason h = last_failed rs reason h.1

-- As many results as counted, or a failure among them.
abbrev pub Finishes : {W : Type 0} → ℕ → StepEnd × RunState W → Type 0
Finishes n (next, s) = length s.results ≡ n
Finishes n (halt, s) = ¬ AllSucceeded s.results
Finishes n (executor_threw message, s) = Unit
Finishes n (immune_threw e, s) = Unit

module _ {W : Type 0} where
  refuse_one :
      (e : RunnerEvent) (reason : String) (s : RunState W)
      → length (refuse e reason s).results ≡ length s.results + 1
  unfolding refuse append
  refuse_one e reason s = length-append s.results (fail reason ∷ [])

  follow-Finishes :
      (n m : ℕ) (p : StepEnd × RunState W) (rest : RunState W → StepEnd × RunState W)
      → Finishes n p
      → ((t : RunState W) → length t.results ≡ n → Finishes m (rest t))
      → Finishes m (follow p rest)
  unfolding follow
  follow-Finishes n m (next, s) rest h later = later s h
  follow-Finishes n m (halt, s) rest h later = h
  follow-Finishes n m (executor_threw message, s) rest h later = tt
  follow-Finishes n m (immune_threw e, s) rest h later = tt

  module _ (c : Setup W) where
    after_execute-Finishes :
        (p : Result String Outcome × World W) (s : RunState W)
        → Finishes (length s.results + 1) (after_execute c p s)
    unfolding after_execute meter append
    after_execute-Finishes (err message, w) s = tt
    after_execute-Finishes (ok r, w) s = length-append s.results (r ∷ [])

    after_gate-Finishes :
        (x : RunStep) (p : Result RuntimeError ImmuneDecision × ImmuneRuntime) (s : RunState W)
        → Finishes (length s.results + 1) (after_gate c x p s)
    unfolding after_gate
    after_gate-Finishes x (err e, im) s = tt
    after_gate-Finishes x (ok d, im) s = elim (Bool-cases d.allowed) [
      | inl h ↦ rw h (
          after_execute-Finishes
            (execute x.action (resolve_input x s.results) (context_for c x.action) c.executors
              s.world)
            (record s { immune = im }))
      | inr h ↦ rw h (
          refuse_one (immune_blocked x.action d.level d.action d.reasons)
            ("immune " <> (action_name d.action <> (": " <> join d.reasons)))
            (record s { immune = im }))
    ]

    module _ (sha256 : String → String) (matches : String → String → Bool)
        (to_fixed : ℕ → ℕ → String) (stamp : ℕ → CallStamp) where
      after_approval-Finishes :
          (x : RunStep) (s : RunState W)
          → Finishes (length s.results + 1) (after_approval sha256 matches to_fixed stamp c x s)
      unfolding after_approval
      after_approval-Finishes x s =
          elim (Bool-cases
            (budget_allows c.budget s.meter.total UsageResource.tool_calls 1).allowed) [
              | inl h ↦ rw h (
                  after_gate-Finishes x (immune_decision sha256 matches to_fixed stamp c x.action s)
                    s)
              | inr h ↦
                  rw (h, refuse, append)
                    (last_failed s.results
                      (budget_allows c.budget s.meter.total UsageResource.tool_calls 1).reason)
            ]

      after_policy-Finishes :
          (x : RunStep) (d : PolicyDecision) (s : RunState W)
          → Finishes (length s.results + 1) (after_policy sha256 matches to_fixed stamp c x d s)
      unfolding after_policy after_answer append
      after_policy-Finishes x d s = elim (Bool-cases d.approval_required) [
        | inr unasked ↦ rw unasked (after_approval-Finishes x s)
        | inl asked ↦ elim (Bool-cases (approves c.approve x.action d.reason)) [
          | inl agreed ↦
              rw (asked, agreed)
                (after_approval-Finishes x
                  (append (approval_granted x.action) (append (approval_required x.action) s)))
          | inr denied ↦
              rw (asked, denied)
                (refuse_one (approval_denied x.action "not approved")
                  ("'" <> (x.action <> "' requires approval"))
                  (append (approval_required x.action) s))
        ]
      ]

      run_step-Finishes :
          (x : RunStep) (s : RunState W)
          → Finishes (length s.results + 1) (run_step sha256 matches to_fixed stamp c x s)
      unfolding run_step
      run_step-Finishes x s = elim (Result-cases (guarded c.guard x.action)) [
        | inr (reason, g) ↦
            rw (run_step, g) (refuse_one (capability_rejected x.action reason) reason s)
        | inl (u, g) ↦ elim (Bool-cases (policy_decision c x.action).allowed) [
          | inr h ↦
              rw (run_step, g, h)
                (refuse_one (approval_denied x.action (policy_decision c x.action).reason)
                  (policy_decision c x.action).reason s)
          | inl h ↦ rw (run_step, g, h) (after_policy-Finishes x (policy_decision c x.action) s)
        ]
      ]

      pub run_steps-Finishes :
          (xs : List RunStep) (s : RunState W)
          → Finishes (length s.results + length xs) (run_steps sha256 matches to_fixed stamp c xs s)
      unfolding run_steps
      run_steps-Finishes [] s = omega arith
      run_steps-Finishes (x ∷ xs) s =
          follow-Finishes (length s.results + 1) (length s.results + length (x ∷ xs))
            (run_step sha256 matches to_fixed stamp c x s)
            (λ t. run_steps sha256 matches to_fixed stamp c xs t) (run_step-Finishes x s)
            (λ t one.
              let count : length t.results + length xs ≡ length s.results + length (x ∷ xs) =
                omega (arith, one) in
              subst (λ (n : ℕ). Finishes n (run_steps sha256 matches to_fixed stamp c xs t)) count
                (run_steps-Finishes xs t))
