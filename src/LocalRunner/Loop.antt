-- ===== src/LocalRunner/Loop.antt =====
-- apps/cli/src/local-runner.ts: `run` of `LocalRunner`, its loop and the body of the loop.
use chat_ai.Base.{
  ℕ, String, Bool, true, false, List, [], ◌∷◌, ◌++◌, none, Result, ok, err, ◌<>◌, if◌then◌else◌,
  map, length,
}
use chat_ai.Policy.{PolicyDecision}
use chat_ai.Economics.{UsageResource, budget_allows}
use chat_ai.Execution.{Outcome, World, execute}
use chat_ai.Verification.{verify}
use chat_ai.Immune.Types.{ImmuneDecision}
use chat_ai.Immune.Gate.{join}
use chat_ai.Immune.Runtime.{ImmuneRuntime, RuntimeError, CallStamp, action_name, evaluate_and_apply}
use chat_ai.LocalRunner.{
  RunStep, Setup, RunState, StepEnd, RunOutcome, principal_for, resolve_input, approves, guarded,
  checks_of, is_pass, append, refuse, meter, policy_decision, context_for, next, halt,
  executor_threw, immune_threw, run_created, task_created, plan_generated, capability_rejected,
  approval_denied, quota_exceeded, approval_required, approval_granted, immune_blocked,
  verification_completed, task_completed, task_failed,
}

module _ {W : Type 0} where
  -- After `execute`.
  unfoldable pub after_execute :
      Setup W → Result String Outcome × World W → RunState W → StepEnd × RunState W
  unfolding meter
  after_execute c (err message, w) s = (executor_threw message, record s { world = w })
  after_execute c (ok r, w) s =
      let t = meter UsageResource.tool_calls c (record s { world = w }) in
      (next, record t { results = t.results ++ r ∷ [] })

  -- After the gate.
  unfoldable pub after_gate :
      Setup W
      → RunStep
      → Result RuntimeError ImmuneDecision × ImmuneRuntime
      → RunState W
      → StepEnd × RunState W
  unfolding after_execute refuse context_for
  after_gate c x (err e, im) s = (immune_threw e, record s { immune = im })
  after_gate c x (ok d, im) s =
      let t : RunState W = record s { immune = im } in
      if d.allowed
      then after_execute c
          (execute x.action (resolve_input x t.results) (context_for c x.action) c.executors
            t.world)
          t
      else (
        next,
        refuse (immune_blocked x.action d.level d.action d.reasons)
            ("immune " <> (action_name d.action <> (": " <> join d.reasons))) t,
      )

  -- What `run` does before the loop.
  unfoldable pub begin : Setup W → String → List RunStep → RunState W → RunState W
  unfolding append meter
  begin c intent steps s =
      let created = append (task_created intent) (append (run_created intent c.mode) s) in
      let planned = meter UsageResource.model_calls c (meter UsageResource.runs c created) in
      record (append (plan_generated (map (λ (x : RunStep). x.action) steps)) planned) {
        results = [];
      }

  -- What `run` does after the loop, with an id for the verification.
  unfoldable pub conclude : Setup W → String → String → RunState W → RunOutcome × RunState W
  unfolding append verify checks_of
  conclude c id intent s =
      let v = verify id intent (checks_of c.on_verify s.results) in
      let t = append (verification_completed v.verdict v.evidence) s in
      (
        record { results = s.results; verification = v; usage = s.meter.total },
        if is_pass v.verdict
            then append (task_completed intent) t
            else append (task_failed intent v.verdict) t,
      )

  unfoldable pub settle :
      Setup W → String → String → StepEnd × RunState W → Result StepEnd RunOutcome × RunState W
  unfolding conclude
  settle c id intent (executor_threw message, s) = (err (executor_threw message), s)
  settle c id intent (immune_threw e, s) = (err (immune_threw e), s)
  settle c id intent (next, s) = let (o, t) = conclude c id intent s in (ok o, t)
  settle c id intent (halt, s) = let (o, t) = conclude c id intent s in (ok o, t)

  unfoldable pub follow :
      StepEnd × RunState W → (RunState W → StepEnd × RunState W) → StepEnd × RunState W
  follow (next, s) rest = rest s
  follow (halt, s) rest = (halt, s)
  follow (executor_threw message, s) rest = (executor_threw message, s)
  follow (immune_threw e, s) rest = (immune_threw e, s)

  module _ (sha256 : String → String) (matches : String → String → Bool) (to_fixed : ℕ → ℕ → String)
      (stamp : ℕ → CallStamp) where
    -- `immune.evaluateAndApply` of a step.
    unfoldable pub immune_decision :
        Setup W → String → RunState W → Result RuntimeError ImmuneDecision × ImmuneRuntime
    unfolding principal_for
    immune_decision c action s =
        evaluate_and_apply sha256 matches to_fixed (stamp (length s.results))
          (record {
            principal = principal_for c.actor_id c.trust;
            capability = action;
            blast_radius = none;
            observation = none;
          })
          s.immune

    -- From the quota on.
    unfoldable pub after_approval : Setup W → RunStep → RunState W → StepEnd × RunState W
    unfolding after_gate immune_decision
    after_approval c x s =
        let q = budget_allows c.budget s.meter.total UsageResource.tool_calls 1 in
        if q.allowed
        then after_gate c x (immune_decision c x.action s) s
        else (halt, refuse (quota_exceeded x.action q.reason) q.reason s)

    -- After the answer to the request of an approval.
    unfoldable pub after_answer : Setup W → RunStep → Bool → RunState W → StepEnd × RunState W
    unfolding after_approval append refuse
    after_answer c x true s = after_approval c x (append (approval_granted x.action) s)
    after_answer c x false s = (
      next,
      refuse (approval_denied x.action "not approved") ("'" <> (x.action <> "' requires approval"))
          s,
    )

    -- From the approval on.
    unfoldable pub after_policy :
        Setup W → RunStep → PolicyDecision → RunState W → StepEnd × RunState W
    unfolding after_approval after_answer append approves
    after_policy c x d s =
        if d.approval_required
        then after_answer c x (approves c.approve x.action d.reason)
            (append (approval_required x.action) s)
        else after_approval c x s

    -- The body of the loop of `run`.
    unfoldable pub run_step : Setup W → RunStep → RunState W → StepEnd × RunState W
    unfolding after_policy refuse guarded policy_decision
    run_step c x s = elim (guarded c.guard x.action) [
      | err reason ↦ (next, refuse (capability_rejected x.action reason) reason s)
      | ok _ ↦
          let d = policy_decision c x.action in
          if d.allowed
          then after_policy c x d s
          else (next, refuse (approval_denied x.action d.reason) d.reason s)
    ]

    -- The loop of `run`.
    unfoldable pub run_steps : Setup W → List RunStep → RunState W → StepEnd × RunState W
    unfolding follow
    run_steps c [] s = (next, s)
    run_steps c (x ∷ xs) s = follow (run_step c x s) λ t. run_steps c xs t

    -- `run`, of a plan that is given, without the billing and the flush.
    unfoldable pub run :
        Setup W
        → String
        → String
        → List RunStep
        → RunState W
        → Result StepEnd RunOutcome × RunState W
    unfolding begin run_steps settle
    run c id intent steps s = settle c id intent (run_steps c steps (begin c intent steps s))
