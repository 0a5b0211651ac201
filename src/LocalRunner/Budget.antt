-- ===== src/LocalRunner/Budget.antt =====
-- The loop of `LocalRunner.run` and the budget.
use chat_ai.Base.{ℕ, ◌≤◌, String, Bool, List, [], ◌∷◌, ◌≡◌, refl, arith, inl, inr}
use chat_ai.Economics.{add_to, record_usage}
use chat_ai.Immune.Runtime.{CallStamp}
use chat_ai.LocalRunner.{
  RunStep, Setup, RunState, StepEnd, next, halt, executor_threw, immune_threw, append, meter,
}
use chat_ai.LocalRunner.Loop.{run_step, follow, run_steps, begin, conclude, settle, run}
use chat_ai.LocalRunner.Cleared.{run_step-Cleared}

module _ {W : Type 0} where
  follow_calls :
      (limit : ℕ) (p : StepEnd × RunState W) (rest : RunState W → StepEnd × RunState W)
      → p.1.meter.total.tool_calls ≤ limit
      → ((t : RunState W)
          → t.meter.total.tool_calls ≤ limit
          → (rest t).1.meter.total.tool_calls ≤ limit)
      → (follow p rest).1.meter.total.tool_calls ≤ limit
  unfolding follow
  follow_calls limit (next, s) rest h later = later s h
  follow_calls limit (halt, s) rest h later = h
  follow_calls limit (executor_threw message, s) rest h later = h
  follow_calls limit (immune_threw e, s) rest h later = h

  begin_calls :
      (c : Setup W) (intent : String) (steps : List RunStep) (s : RunState W)
      → (begin c intent steps s).meter.total.tool_calls ≡ s.meter.total.tool_calls
  unfolding begin append meter record_usage add_to
  begin_calls c intent steps s = refl

  settle_calls :
      (c : Setup W) (id intent : String) (p : StepEnd × RunState W)
      → (settle c id intent p).1.meter.total.tool_calls ≡ p.1.meter.total.tool_calls
  unfolding settle conclude append
  settle_calls c id intent (next, s) = ground arith
  settle_calls c id intent (halt, s) = ground arith
  settle_calls c id intent (executor_threw message, s) = refl
  settle_calls c id intent (immune_threw e, s) = refl

module _ {W : Type 0} (sha256 : String → String) (matches : String → String → Bool)
    (to_fixed : ℕ → ℕ → String) (stamp : ℕ → CallStamp) (c : Setup W) where
  run_step_calls :
      (x : RunStep) (s : RunState W)
      → s.meter.total.tool_calls ≤ c.budget.max_tool_calls
      → (run_step sha256 matches to_fixed stamp c x s).1.meter.total.tool_calls
        ≤ c.budget.max_tool_calls
  run_step_calls x s h = elim (run_step-Cleared sha256 matches to_fixed stamp c x s) [
    | inl (_, same) ↦ rw same h
    | inr (cleared, charge) ↦ let room = cleared.affordable in omega arith
  ]

  run_steps_calls :
      (xs : List RunStep) (s : RunState W)
      → s.meter.total.tool_calls ≤ c.budget.max_tool_calls
      → (run_steps sha256 matches to_fixed stamp c xs s).1.meter.total.tool_calls
        ≤ c.budget.max_tool_calls
  unfolding run_steps
  run_steps_calls [] s h = h
  run_steps_calls (x ∷ xs) s h =
      follow_calls c.budget.max_tool_calls (run_step sha256 matches to_fixed stamp c x s)
        (λ t. run_steps sha256 matches to_fixed stamp c xs t) (run_step_calls x s h)
        (λ t bound. run_steps_calls xs t bound)

  -- From a meter within the budget, a run, also one that throws, leaves the tool calls within the
  -- budget, whatever the executors, the approvals and the immune gate answer.
  pub run-le-max_tool_calls :
      (id intent : String) (steps : List RunStep) (s : RunState W)
      → s.meter.total.tool_calls ≤ c.budget.max_tool_calls
      → (run sha256 matches to_fixed stamp c id intent steps s).1.meter.total.tool_calls
        ≤ c.budget.max_tool_calls
  unfolding run
  run-le-max_tool_calls id intent steps s h =
      rw
        (settle_calls c id intent
          (run_steps sha256 matches to_fixed stamp c steps (begin c intent steps s)))
        (run_steps_calls steps (begin c intent steps s) (rw (begin_calls c intent steps s) h))
