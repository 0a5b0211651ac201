-- ===== src/Tests/Running.antt =====
-- A local run at concrete inputs.
use chat_ai.Base.{
  ℕ, length, ◌+◌, String, Bool, true, false, [], ◌∷◌, none, some, Result, ok, ◌≡◌, refl, ◌⊎◌, ◌≤◌,
  arith,
}
use chat_ai.Orchestrator.Json.{null}
use chat_ai.Policy
use chat_ai.Policy.{Grant, GrantEffect, ApprovalRequirement, PolicyEngine}
use chat_ai.Economics.{new_meter, budget_allows, within, limit_for, amount_of, add_to, record_usage}
use chat_ai.Execution.{
  OutcomeStatus, Outcome, CapabilityExecutor, execute, execute_allowed, after_check, after_run,
  resolve, emit, create_execution_context,
}
use chat_ai.Verification.{Verdict, verify, derive_verdict, all_passed, evidence_of, with_evidence}
use chat_ai.Immune.Gate
use chat_ai.Immune.Gate.{
  decide_on, on_verdict, on_dependencies, on_risk, by_level, level_for_score, max_level,
  observation_of, no_observation,
}
use chat_ai.Immune.Detector
use chat_ai.Immune.Detector.{
  on_some, both, actor_of, check_privilege_escalation, when, is_privileged,
}
use chat_ai.Immune.Risk.{
  assess, total_weight, clamp, severity_of, firewall, requires_approval, blast_radius_product,
}
use chat_ai.Base.Maps.{get}
use chat_ai.Immune.Types.{immunity_order, default_cascade, TrustState}
use chat_ai.Immune.KillSwitch.{new_switch}
use chat_ai.Immune.Incident.{Stamp}
use chat_ai.Immune.Health.{new_metrics}
use chat_ai.Immune.Runtime.{CallStamp, evaluate_and_apply, with_decision, apply_decision}
use chat_ai.Immune.Types.{ImmunityLevel}
use chat_ai.LocalRunner.{
  RunMode, RunStep, StepInput, Setup, RunState, RunOutcome, StepEnd, free_budget, append, meter,
  refuse, guarded, policy_decision, principal_for, capabilities_for, context_for, default_checks,
  checks_of,
}
use chat_ai.LocalRunner.Loop.{
  run, run_step, run_steps, begin, conclude, follow, settle, after_policy, after_approval,
  after_gate, immune_decision, after_execute,
}
use chat_ai.LocalRunner.Cleared.{Cleared, Idle, Charged, run_step-Cleared}
use chat_ai.LocalRunner.Budget.{run-le-max_tool_calls}
use chat_ai.LocalRunner.Evidence.{Proved, run-Proved}

abbrev digest : String → String
digest s = s

abbrev finds_nothing : String → String → Bool
finds_nothing pattern text = false

abbrev fixed : ℕ → ℕ → String
fixed a b = "0"

abbrev stamp : Stamp
stamp = record { now = "now"; event_id = "id"; event_time = "now" }

abbrev stamps : ℕ → CallStamp
stamps n = record {
  now = "now";
  incident_id = "i";
  detecting = stamp;
  classifying = stamp;
  containing = stamp;
  opened_at = 1;
  detected_at = 2;
  contained_at = 3;
}

abbrev passing : Outcome
passing = record {
  status = OutcomeStatus.success;
  output = null;
  evidence = record { evidence_id = "e"; kind = "log" } ∷ [];
}

abbrev counting : CapabilityExecutor ℕ
counting = record {
  can_execute = λ ctx w. (ok true, w);
  execute = λ input ctx w. (ok passing, record w { outside = w.outside + 1 });
}

abbrev setup : Setup ℕ
setup = record {
  mode = RunMode.local;
  budget = free_budget;
  policy = record {
    grants =
        record {
          id = "g";
          principal = "coder";
          capability = "test.run";
          scope = "*";
          effect = GrantEffect.allow;
        }
        ∷ [];
    approval_policy = ("test.run", ApprovalRequirement.auto) ∷ [];
  };
  approve = none;
  guard = none;
  executors = ("test.run", counting) ∷ [];
  run_id = "run";
  actor_id = "coder";
  trust = TrustState.verified;
  on_verify = none;
}

abbrev start : RunState ℕ
start = record {
  meter = new_meter;
  immune = record {
    gate = record { level = none; cascade = none; safe_mode = false; emergency_lock = false };
    policy = none;
    current_level = ImmunityLevel.green;
    quarantine = [];
    incidents = record { incidents = []; ledger = some [] };
    kill_switch = new_switch;
    metrics = new_metrics;
    integrity = [];
  };
  world = record { log = []; outside = 0 };
  log = [];
  results = [];
}

abbrev testing : RunStep
testing = record { action = "test.run"; input = StepInput.given none }

abbrev ended : Result StepEnd RunOutcome × RunState ℕ
ended = run digest finds_nothing fixed stamps setup "v" "test it" (testing ∷ []) start

run_step-Cleared_example :
    Idle digest finds_nothing fixed stamps setup start
      (run_step digest finds_nothing fixed stamps setup testing start).1
    ⊎ (Cleared digest finds_nothing fixed stamps setup "test.run" start
        × Charged digest finds_nothing fixed stamps setup start
            (run_step digest finds_nothing fixed stamps setup testing start).1)
run_step-Cleared_example = run_step-Cleared digest finds_nothing fixed stamps setup testing start

nothing_called : start.meter.total.tool_calls ≤ setup.budget.max_tool_calls
unfolding new_meter
nothing_called = omega arith

run-le-max_tool_calls_example : ended.1.meter.total.tool_calls ≤ 100
run-le-max_tool_calls_example =
    run-le-max_tool_calls digest finds_nothing fixed stamps setup "v" "test it" (testing ∷ []) start
      nothing_called

abbrev outcome : RunOutcome
outcome =
    (conclude setup "v" "test it"
      (run_steps digest finds_nothing fixed stamps setup (testing ∷ [])
        (begin setup "test it" (testing ∷ []) start)).1).0

returned :
    (run digest finds_nothing fixed stamps setup "v" "test it" (testing ∷ []) start
      ≡ (ok outcome, ended.1))
    × (outcome.verification.verdict ≡ Verdict.passed)
unfolding run begin run_steps follow settle conclude run_step after_policy after_approval after_gate
    immune_decision after_execute append meter refuse guarded policy_decision Policy.evaluate
    Policy.is_relevant Policy.decide Policy.decide_allow Policy.granted Policy.scope_matches
    budget_allows within limit_for amount_of add_to new_meter record_usage evaluate_and_apply
    with_decision apply_decision Gate.evaluate decide_on on_verdict on_dependencies on_risk by_level
    level_for_score max_level immunity_order observation_of Detector.detect Detector.flat
    Detector.checks on_some both actor_of check_privilege_escalation when is_privileged assess
    total_weight clamp severity_of firewall requires_approval blast_radius_product principal_for
    capabilities_for context_for execute execute_allowed after_check after_run resolve emit
    create_execution_context get default_cascade verify derive_verdict all_passed evidence_of
    with_evidence default_checks checks_of
returned = (refl, refl)

run-Proved_example : (length outcome.results ≡ 1) × Proved outcome
run-Proved_example =
    run-Proved digest finds_nothing fixed stamps setup "v" "test it" (testing ∷ []) start outcome
      ended.1 refl returned.0 returned.1
