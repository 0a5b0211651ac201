-- ===== src/LocalRunner.antt =====
-- apps/cli/src/local-runner.ts: `LocalRunner`. What the runner appends to the ledger stands in
-- `log`; what the immune runtime and `execute` emit stands in their parts of the state, so that the
-- order between the three is not kept. The ids and times of a run are given, as are the plan, the
-- answers of `onApprovalRequired` and of the guard of names, and the checks of `onVerify`.
pub mod Loop
pub mod Cleared
pub mod Budget
pub mod Complete
pub mod Evidence
use chat_ai.Base.{
  ℕ, ◌+◌, String, Bool, true, false, List, [], ◌∷◌, ◌++◌, Option, none, some, Result, ok, err, ◌<>◌,
  if◌then◌else◌, map, length, show,
}
use chat_ai.Base.Maps.{Map}
use chat_ai.Orchestrator.Types.{EvidenceRef}
use chat_ai.Orchestrator.Json.{Json, obj, Fields}
use chat_ai.Policy
use chat_ai.Policy.{PolicyDecision, PolicyEngine}
use chat_ai.Economics.{
  UsageResource, Usage, UsageEvent, BudgetPolicy, UsageMeter, record_usage, budget_allows,
}
use chat_ai.Capability.{CapabilitySpec, spec}
use chat_ai.Execution.{
  OutcomeStatus, Outcome, World, ContextOptions, ExecutionContext, CapabilityExecutor,
  create_execution_context, fail, execute,
}
use chat_ai.Verification.{Verdict, VerificationCheck, Verification, verify}
use chat_ai.Immune.Types.{
  ImmunityLevel, ImmuneAction, ImmuneDecision, ImmuneRequest, PrincipalType, TrustState, Principal,
}
use chat_ai.Immune.Gate.{join}
use chat_ai.Immune.Runtime.{ImmuneRuntime, RuntimeError, CallStamp, action_name, evaluate_and_apply}

-- `RunMode`.
pub data RunMode : Type 0 where
  local cloud : RunMode

-- `FREE_BUDGET`.
abbrev pub free_budget : BudgetPolicy
free_budget = record {
  max_execution_seconds = 300;
  max_tool_calls = 100;
  max_model_calls = 20;
  max_network_requests = 20;
  max_tokens = none;
  max_runs = some 10;
}

-- `RunStep['input']`.
pub data StepInput : Type 0 where
  given : Option Json → StepInput
  computed : (List Outcome → Json) → StepInput

-- `RunStep`.
pub record RunStep : Type 0 where
  pub action : String
  pub input : StepInput

-- What the runner appends, with the payloads.
pub data RunnerEvent : Type 0 where
  run_created : String → RunMode → RunnerEvent
  task_created : String → RunnerEvent
  plan_generated : List String → RunnerEvent
  usage_recorded : UsageEvent → Usage → RunnerEvent
  capability_rejected approval_denied quota_exceeded : String → String → RunnerEvent
  approval_required approval_granted : String → RunnerEvent
  immune_blocked : String → ImmunityLevel → ImmuneAction → List String → RunnerEvent
  verification_completed : Verdict → List EvidenceRef → RunnerEvent
  task_completed : String → RunnerEvent
  task_failed : String → Verdict → RunnerEvent

-- The options of the constructor and of `run`, and what is registered.
pub record Setup (W : Type 0) : Type 0 where
  pub mode : RunMode
  pub budget : BudgetPolicy
  pub policy : PolicyEngine
  pub approve : Option (String → String → Bool)
  pub guard : Option (String → Result String (Unit {0}))
  pub executors : Map (CapabilityExecutor W)
  pub run_id : String
  pub actor_id : String
  pub trust : TrustState
  pub on_verify : Option (List Outcome → List VerificationCheck)

-- What a run changes, and the results so far.
pub record RunState (W : Type 0) : Type 0 where
  pub meter : UsageMeter
  pub immune : ImmuneRuntime
  pub world : World W
  pub log : List RunnerEvent
  pub results : List Outcome

-- How a step ends: `continue` or the end of the body, `break`, or a throw.
pub data StepEnd : Type 0 where
  next halt : StepEnd
  executor_threw : String → StepEnd
  immune_threw : RuntimeError → StepEnd

-- `ProofCarryingOutcome`, but for what the options say and the ledger.
pub record RunOutcome : Type 0 where
  pub results : List Outcome
  pub verification : Verification
  pub usage : Usage

-- `principalFor`.
unfoldable pub principal_for : String → TrustState → Principal
principal_for actor_id trust = record {
  id = actor_id;
  kind = PrincipalType.agent;
  trust = trust;
  credentials = [];
}

-- `resolveInput`.
unfoldable pub resolve_input : RunStep → List Outcome → Json
resolve_input x results = elim x.input [
  | computed f ↦ f results
  | given (some j) ↦ j
  | given none ↦ obj Fields.end
]

-- `capabilitiesFor`.
unfoldable pub capabilities_for : String → List CapabilitySpec
capabilities_for action = spec action "*" [] ∷ []

unfoldable pub approves : Option (String → String → Bool) → String → String → Bool
approves none action reason = false
approves (some f) action reason = f action reason

unfoldable pub guarded :
    Option (String → Result String (Unit {0})) → String → Result String (Unit {0})
guarded none action = ok tt
guarded (some f) action = f action

abbrev pub verdict_of : OutcomeStatus → Verdict
verdict_of status = elim status [
  | OutcomeStatus.success ↦ Verdict.passed
  | OutcomeStatus.failure ↦ Verdict.failed
]

-- The checks of a run without `onVerify`.
unfoldable pub default_checks : ℕ → List Outcome → List VerificationCheck
default_checks i [] = []
default_checks i (r ∷ rs) =
    record {
      id = "check-" <> show i;
      name = "action[" <> (show i <> "]");
      verdict = verdict_of r.status;
      evidence = some r.evidence;
      detail = none;
    }
    ∷ default_checks (1 + i) rs

unfoldable pub checks_of :
    Option (List Outcome → List VerificationCheck) → List Outcome → List VerificationCheck
unfolding default_checks
checks_of none results = default_checks 0 results
checks_of (some f) results = f results

abbrev pub is_pass : Verdict → Bool
is_pass v = elim v [ Verdict.passed ↦ true | _ ↦ false ]

module _ {W : Type 0} where
  unfoldable pub append : RunnerEvent → RunState W → RunState W
  append e s = record s { log = s.log ++ e ∷ [] }

  -- An append, and the failure that is pushed.
  unfoldable pub refuse : RunnerEvent → String → RunState W → RunState W
  unfolding append fail
  refuse e reason s = record (append e s) { results = s.results ++ fail reason ∷ [] }

  -- `meter.record`, with what the runner does on a record.
  unfoldable pub meter : UsageResource → Setup W → RunState W → RunState W
  unfolding append record_usage
  meter resource c s =
      let e : UsageEvent = record {
        resource = resource;
        amount = 1;
        actor_id = c.actor_id;
        run_id = c.run_id;
      } in
      let m = record_usage e s.meter in append (usage_recorded e m.total) (record s { meter = m })

  -- `policyCtx.evaluate`.
  unfoldable pub policy_decision : Setup W → String → PolicyDecision
  policy_decision c action = Policy.evaluate c.policy c.actor_id action "*"

  unfoldable pub context_for : Setup W → String → ExecutionContext
  unfolding create_execution_context policy_decision capabilities_for
  context_for c action = create_execution_context record {
    run_id = c.run_id;
    actor_id = c.actor_id;
    parent_id = none;
    capabilities = some (capabilities_for action);
    workspace_root = none;
    policy = some (policy_decision c);
  }
