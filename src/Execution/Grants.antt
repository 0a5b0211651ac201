-- ===== src/Execution/Grants.antt =====
-- What has been cleared before an executor runs.
use chat_ai.Base.{
  String, Bool, true, false, List, none, some, Result, ok, err, ◌≡◌, refl, sym, ◌∙◌, ap, arith, any,
  inl, inr, Bool-cases, Option-cases,
}
use chat_ai.Base.Maps
use chat_ai.Base.Maps.{Map}
use chat_ai.Orchestrator.Json.{Json}
use chat_ai.Capability.{CapabilitySpec, Part, part_capabilities, compose, names_action, has}
use chat_ai.Capability.Compose.{has-compose}
use chat_ai.Execution.{
  success, Outcome, requested, completed, World, ContextOptions, ExecutionContext,
  CapabilityExecutor, default_policy, create_execution_context, fail, resolve, emit, after_run,
  after_check, execute_allowed, execute,
}

granted :
    (opts : ContextOptions) (set : List CapabilitySpec) (action : String)
    → opts.policy ≡ none
    → opts.capabilities ≡ some set
    → ((create_execution_context opts).policy action).allowed ≡ true
    → any (names_action action) set ≡ true
unfolding create_execution_context default_policy
granted opts set action unset given h =
    let allowed = rw (unset, given) at h in
    elim (Bool-cases (any (names_action action) set)) [
      | inl member ↦ member
      | inr missing ↦ ground (arith, allowed, missing)
    ]

module _ {W : Type 0} where
  -- A run of an executor, and what came before it.
  pub record Ran (action : String) (input : Json) (ctx : ExecutionContext)
      (executors : Map (CapabilityExecutor W)) (w : World W) (r : Outcome) (end : World W)
      : Type 0 where
    pub allowed : (ctx.policy action).allowed ≡ true
    pub executor : CapabilityExecutor W
    pub registered : Maps.get action executors ≡ some executor
    pub checked : World W
    pub able : executor.can_execute ctx (emit ctx (requested action input) w) ≡ (ok true, checked)
    pub done : World W
    pub ran : executor.execute input ctx checked ≡ (ok r, done)
    pub told : end ≡ emit ctx (completed action r.status r.evidence) done

  module _ (action : String) (input : Json) (ctx : ExecutionContext) where
    after_run_returns :
        (p : Result String Outcome × World W) (r : Outcome) (end : World W)
        → after_run action ctx p ≡ (ok r, end)
        → (done : World W) × (p ≡ (ok r, done))
          × (end ≡ emit ctx (completed action r.status r.evidence) done)
    unfolding after_run
    after_run_returns (err message, w) r end h = ground (arith, h)
    after_run_returns (ok q, w) r end h =
        let same : q ≡ r = ground (arith, h) in
        (
          w,
          (λ i. (ok (same i), w)),
          sym (ap (λ (z : Result String Outcome × World W). z.1) h)
              ∙ ap (λ (x : Outcome). emit ctx (completed action x.status x.evidence) w) same,
        )

    after_check_succeeds :
        (e : CapabilityExecutor W) (p : Result String Bool × World W) (r : Outcome) (end : World W)
        → r.status ≡ success
        → after_check action input ctx e p ≡ (ok r, end)
        → (checked : World W) × (p ≡ (ok true, checked))
          × (after_run action ctx (e.execute input ctx checked) ≡ (ok r, end))
    unfolding after_check fail
    after_check_succeeds e (err message, w) r end good h = ground (arith, h)
    after_check_succeeds e (ok true, w) r end good h = (w, refl, h)
    after_check_succeeds e (ok false, w) r end good h = ground (arith, h, good)

    allowed_Ran :
        (executors : Map (CapabilityExecutor W)) (w : World W) (r : Outcome) (end : World W)
        → (ctx.policy action).allowed ≡ true
        → r.status ≡ success
        → execute_allowed action input ctx executors (emit ctx (requested action input) w)
          ≡ (ok r, end)
        → Ran action input ctx executors w r end
    unfolding execute_allowed resolve
    allowed_Ran executors w r end allowed good h = elim (Option-cases (Maps.get action executors)) [
      | inl missing ↦ ground (arith, h, missing)
      | inr (e, found) ↦
          let start = emit ctx (requested action input) w in
          let later : after_check action input ctx e (e.can_execute ctx start) ≡ (ok r, end) =
            sym (rw (found, execute_allowed, resolve) refl) ∙ h in
          let (checked, able, run) =
            after_check_succeeds e (e.can_execute ctx start) r end good later in
          let (done, ran, told) = after_run_returns (e.execute input ctx checked) r end run in
          record {
            allowed = allowed;
            executor = e;
            registered = found;
            checked = checked;
            able = able;
            done = done;
            ran = ran;
            told = told;
          }
    ]

    -- `execute` returns a success only where the policy allows the action, an executor is
    -- registered for it, that executor said, with the request in the log, that it can execute, and
    -- then returned this very result; and the log then ends with the event of the completion.
    pub execute-Ran :
        (executors : Map (CapabilityExecutor W)) (w : World W) (r : Outcome) (end : World W)
        → r.status ≡ success
        → execute action input ctx executors w ≡ (ok r, end)
        → Ran action input ctx executors w r end
    unfolding execute fail
    execute-Ran executors w r end good h = elim (Bool-cases (ctx.policy action).allowed) [
      | inl yes_allowed ↦
          allowed_Ran executors w r end yes_allowed good (sym (rw (yes_allowed, execute) refl) ∙ h)
      | inr refused ↦ ground (arith, h, refused, good)
    ]

  -- In a context made with the capabilities of a composed set and no policy of its own, an action
  -- that succeeds is one that a part of the set has.
  pub execute-compose :
      (action id : String) (input : Json) (opts : ContextOptions) (parts : List Part)
      (executors : Map (CapabilityExecutor W)) (w : World W) (r : Outcome) (end : World W)
      → opts.policy ≡ none
      → opts.capabilities ≡ some (compose id parts).capabilities
      → r.status ≡ success
      → execute action input (create_execution_context opts) executors w ≡ (ok r, end)
      → any (λ p. any (names_action action) (part_capabilities p)) parts ≡ true
  unfolding has
  execute-compose action id input opts parts executors w r end open_policy given good h =
      let ran = execute-Ran action input (create_execution_context opts) executors w r end good h in
      sym (has-compose id action parts).0
      ∙ granted opts (compose id parts).capabilities action open_policy given ran.allowed
