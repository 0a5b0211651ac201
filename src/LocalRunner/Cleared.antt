-- ===== src/LocalRunner/Cleared.antt =====
-- The loop of `LocalRunner.run`: what has been cleared before a step executes, and the budget.
use chat_ai.Base.{
  not, ◌||◌, ℕ, ◌+◌, ◌≤◌, String, Bool, true, false, Result, ok, err, ◌≡◌, refl, arith, ◌⊎◌, inl,
  inr, Bool-cases, Result-cases,
}
use chat_ai.Economics.{UsageResource, amount_of, add_to, record_usage, limit_for, budget_allows}
use chat_ai.Economics.Quota.{allowed-limit}
use chat_ai.Policy.{PolicyDecision}
use chat_ai.Execution.{Outcome, World, execute}
use chat_ai.Immune.Types.{ImmuneDecision}
use chat_ai.Immune.Runtime.{ImmuneRuntime, RuntimeError, CallStamp}
use chat_ai.LocalRunner.{
  RunStep, Setup, resolve_input, context_for, RunState, approves, guarded, append, refuse, meter,
  policy_decision, approval_granted, approval_required,
}
use chat_ai.LocalRunner.Loop.{
  after_execute, after_gate, immune_decision, after_approval, after_answer, after_policy, run_step,
}

module _ {W : Type 0} (sha256 : String → String) (matches : String → String → Bool)
    (to_fixed : ℕ → ℕ → String) (stamp : ℕ → CallStamp) (c : Setup W) where
  -- No approval is asked for, or it has been given.
  abbrev pub Answered : String → PolicyDecision → Type 0
  Answered action d = (not d.approval_required || approves c.approve action d.reason) ≡ true

  -- What each of the checks of a step has said.
  pub record Cleared (action : String) (s : RunState W) : Type 0 where
    pub named : guarded c.guard action ≡ ok tt
    pub granted : (policy_decision c action).allowed ≡ true
    pub answered : Answered action (policy_decision c action)
    pub affordable : s.meter.total.tool_calls + 1 ≤ c.budget.max_tool_calls
    pub decision : ImmuneDecision
    pub immune : ImmuneRuntime
    pub judged : immune_decision sha256 matches to_fixed stamp c action s ≡ (ok decision, immune)
    pub healthy : decision.allowed ≡ true

  -- Nothing has been executed or charged.
  abbrev pub Idle : RunState W → RunState W → Type 0
  Idle s t = (t.world ≡ s.world) × (t.meter ≡ s.meter)

  -- At most one call has been charged.
  abbrev pub Charged : RunState W → RunState W → Type 0
  Charged s t = t.meter.total.tool_calls ≤ s.meter.total.tool_calls + 1

  after_execute-Charged :
      (p : Result String Outcome × World W) (s : RunState W) → Charged s (after_execute c p s).1
  unfolding after_execute meter append record_usage add_to
  after_execute-Charged (err message, w) s = omega arith
  after_execute-Charged (ok r, w) s = omega arith

  after_gate_cases :
      (x : RunStep) (p : Result RuntimeError ImmuneDecision × ImmuneRuntime) (s : RunState W)
      → Idle s (after_gate c x p s).1
        ⊎ ((d : ImmuneDecision) × (im : ImmuneRuntime) × (p ≡ (ok d, im))
            × (d.allowed ≡ true)
            × Charged s (after_gate c x p s).1)
  unfolding after_gate refuse append
  after_gate_cases x (err e, im) s = inl (refl, refl)
  after_gate_cases x (ok d, im) s = elim (Bool-cases d.allowed) [
    | inl h ↦ inr (
      d,
      im,
      refl,
      h,
      rw h (
          after_execute-Charged
            (execute x.action (resolve_input x s.results) (context_for c x.action) c.executors
              s.world)
            (record s { immune = im })),
    )
    | inr h ↦ inl (rw h (refl, refl))
  ]

  affordable_lem :
      (s : RunState W)
      → (budget_allows c.budget s.meter.total UsageResource.tool_calls 1).allowed ≡ true
      → s.meter.total.tool_calls + 1 ≤ c.budget.max_tool_calls
  unfolding amount_of limit_for
  affordable_lem s h =
      allowed-limit c.budget s.meter.total UsageResource.tool_calls 1 c.budget.max_tool_calls h refl

  -- What is left to clear once the policy and the approval are done with.
  abbrev Judged : String → RunState W → Type 0
  Judged action s =
      (s.meter.total.tool_calls + 1 ≤ c.budget.max_tool_calls)
      × ((d : ImmuneDecision) × (im : ImmuneRuntime) × (immune_decision sha256 matches to_fixed
              stamp c action s
            ≡ (ok d, im))
          × (d.allowed ≡ true))

  after_approval_cases :
      (x : RunStep) (s : RunState W)
      → Idle s (after_approval sha256 matches to_fixed stamp c x s).1
        ⊎ (Judged x.action s × Charged s (after_approval sha256 matches to_fixed stamp c x s).1)
  unfolding after_approval refuse append
  after_approval_cases x s =
      elim (Bool-cases (budget_allows c.budget s.meter.total UsageResource.tool_calls 1).allowed) [
        | inr h ↦ inl (rw h (refl, refl))
        | inl h ↦
            elim (after_gate_cases x (immune_decision sha256 matches to_fixed stamp c x.action s)
              s) [
                | inl idle ↦ inl (rw h idle)
                | inr (d, im, judged, healthy, charge) ↦
                    inr ((affordable_lem s h, (d, im, judged, healthy)), rw h charge)
              ]
      ]

  after_answer_cases :
      (x : RunStep) (a : Bool) (s : RunState W)
      → Idle s (after_answer sha256 matches to_fixed stamp c x a s).1
        ⊎ ((a ≡ true)
            × Judged x.action s
            × Charged s (after_answer sha256 matches to_fixed stamp c x a s).1)
  unfolding after_answer refuse append immune_decision
  after_answer_cases x false s = inl (refl, refl)
  after_answer_cases x true s =
      elim (after_approval_cases x (append (approval_granted x.action) s)) [
        | inl idle ↦ inl idle
        | inr (judged, charge) ↦ inr (refl, judged, charge)
      ]

  after_policy_cases :
      (x : RunStep) (d : PolicyDecision) (s : RunState W)
      → Idle s (after_policy sha256 matches to_fixed stamp c x d s).1
        ⊎ (Answered x.action d
            × Judged x.action s
            × Charged s (after_policy sha256 matches to_fixed stamp c x d s).1)
  unfolding after_policy append immune_decision
  after_policy_cases x d s = elim (Bool-cases d.approval_required) [
    | inr unasked ↦ elim (after_approval_cases x s) [
      | inl idle ↦ inl (rw unasked idle)
      | inr (judged, charge) ↦ inr (rw unasked refl, judged, rw unasked charge)
    ]
    | inl asked ↦
        elim (after_answer_cases x (approves c.approve x.action d.reason)
          (append (approval_required x.action) s)) [
            | inl idle ↦ inl (rw asked idle)
            | inr (agreed, judged, charge) ↦ inr (rw (asked, agreed) refl, judged, rw asked charge)
          ]
  ]

  -- A step either executes nothing and charges nothing, or the guard of names has let its action
  -- pass, the policy allows it, the approval that the policy asks for has been given, one more tool
  -- call is within the budget and the immune gate has allowed it; then at most one more tool call
  -- is charged.
  pub run_step-Cleared :
      (x : RunStep) (s : RunState W)
      → Idle s (run_step sha256 matches to_fixed stamp c x s).1
        ⊎ (Cleared x.action s × Charged s (run_step sha256 matches to_fixed stamp c x s).1)
  unfolding run_step refuse append
  run_step-Cleared x s = elim (Result-cases (guarded c.guard x.action)) [
    | inr (reason, g) ↦ inl (rw (run_step, g) (refl, refl))
    | inl (u, g) ↦ elim (Bool-cases (policy_decision c x.action).allowed) [
      | inr h ↦ inl (rw (run_step, g, h) (refl, refl))
      | inl h ↦ elim (after_policy_cases x (policy_decision c x.action) s) [
        | inl idle ↦ inl (rw (run_step, g, h) idle)
        | inr (answered, (affordable, (d, im, judged, healthy)), charge) ↦ inr (
          record {
            named = g;
            granted = h;
            answered = answered;
            affordable = affordable;
            decision = d;
            immune = im;
            judged = judged;
            healthy = healthy;
          },
          rw (run_step, g, h) charge,
        )
      ]
    ]
  ]
