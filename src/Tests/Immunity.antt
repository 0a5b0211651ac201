-- ===== src/Tests/Immunity.antt =====
-- The immune runtime, an incident and an execution at concrete inputs.
use chat_ai.Base.{
  ℕ, ◌+◌, String, true, false, List, [], ◌∷◌, none, some, Result, ok, err, ◌≡◌, refl, any,
}
use chat_ai.Base.Maps.{get}
use chat_ai.Orchestrator.Json.{null}
use chat_ai.Ledger.{ActorType, Draft}
use chat_ai.Immune.Types.{
  ImmunityLevel, RiskSeverity, PrincipalType, TrustState, ImmuneAction, ImmuneDecision,
  ImmuneRequest,
}
use chat_ai.Immune.Quarantine.{QuarantineState, full_quarantine, is_quarantined, quarantined_at}
use chat_ai.Immune.KillSwitch.{new_switch}
use chat_ai.Immune.Incident.{IncidentEvent, Stamp}
use chat_ai.Immune.Incident.Trace.{AllTraced}
use chat_ai.Immune.Incident.Calls.{
  IncidentCall, detecting, classifying, moving, elsewhere, calls, calls-AllTraced,
}
use chat_ai.Immune.Health.{new_metrics}
use chat_ai.Immune.Runtime.{ImmuneRuntime, CallStamp, RuntimeError, apply_decision}
use chat_ai.Immune.Runtime.Applies.{Contained, apply_decision-Contained, apply_decision-quarantined}
use chat_ai.Capability
use chat_ai.Capability.{Part, listed, part_capabilities, compose, spec, names_action}
use chat_ai.Execution.{
  success, Outcome, World, ContextOptions, ExecutionContext, CapabilityExecutor, default_policy,
  create_execution_context, resolve, emit, after_run, after_check, execute_allowed, execute,
}
use chat_ai.Execution.Grants.{Ran, execute-Ran, execute-compose}

abbrev digest : String → String
digest s = s

abbrev stamp : Stamp
stamp = record { now = "now"; event_id = "id"; event_time = "now" }

abbrev some_draft : Draft
some_draft = record {
  actor = record { kind = ActorType.user; id = "ana" };
  kind = "RunCreated";
  task_id = "task";
  run_id = "run";
  payload = null;
  evidence = none;
}

abbrev incident_history : List IncidentCall
incident_history =
    detecting stamp "i" "leak" RiskSeverity.high []
    ∷ elsewhere "x" "now" some_draft
    ∷ classifying stamp "i" RiskSeverity.critical
    ∷ moving stamp "i" IncidentEvent.contain "isolated"
    ∷ []

calls-AllTraced_example :
    AllTraced (calls digest incident_history (record { incidents = []; ledger = some [] }))
calls-AllTraced_example = calls-AllTraced digest incident_history (some [])

abbrev calm : ImmuneRuntime
calm = record {
  gate = record { level = none; cascade = none; safe_mode = false; emergency_lock = false };
  policy = none;
  current_level = ImmunityLevel.green;
  quarantine = [];
  incidents = record { incidents = []; ledger = some [] };
  kill_switch = new_switch;
  metrics = new_metrics;
  integrity = [];
}

abbrev at_once : CallStamp
at_once = record {
  now = "now";
  incident_id = "i";
  detecting = stamp;
  classifying = stamp;
  containing = stamp;
  opened_at = 1;
  detected_at = 2;
  contained_at = 3;
}

abbrev fatal : ImmuneDecision
fatal = record {
  allowed = false;
  action = ImmuneAction.kill;
  level = ImmunityLevel.black;
  risk = record { score = 95; confidence = 50; reasons = []; severity = RiskSeverity.critical };
  reasons = "critical risk" ∷ [];
  approval_required = false;
  evidence_required = true;
}

abbrev by_coder : ImmuneRequest
by_coder = record {
  principal = record {
    id = "coder";
    kind = PrincipalType.agent;
    trust = TrustState.verified;
    credentials = [];
  };
  capability = "repo.read";
  blast_radius = none;
  observation = none;
}

nobody_quarantined : get "coder" calm.quarantine ≡ none
unfolding get
nobody_quarantined = refl

apply_decision-Contained_example :
    (t : ImmuneRuntime) × (apply_decision digest at_once fatal by_coder calm ≡ (ok tt, t))
    × Contained digest at_once fatal by_coder calm t
apply_decision-Contained_example =
    apply_decision-Contained digest at_once fatal by_coder calm refl nobody_quarantined

abbrev watched : ImmuneRuntime
watched = record calm {
  quarantine =
      (
        "coder",
        record {
          entity_id = "coder";
          state = QuarantineState.quarantined;
          reason = "before";
          restrictions = full_quarantine;
          entered_at = "now";
          evidence = [];
        },
      )
      ∷ [];
}

coder_quarantined : is_quarantined "coder" watched.quarantine ≡ true
unfolding is_quarantined quarantined_at get
coder_quarantined = refl

apply_decision-quarantined_example :
    (e : RuntimeError) × (apply_decision digest at_once fatal by_coder watched ≡ (err e, watched))
apply_decision-quarantined_example =
    apply_decision-quarantined digest at_once fatal by_coder watched refl coder_quarantined

abbrev done : Outcome
done = record { status = success; output = null; evidence = [] }

abbrev counting : CapabilityExecutor ℕ
counting = record {
  can_execute = λ ctx w. (ok true, w);
  execute = λ input ctx w. (ok done, record w { outside = w.outside + 1 });
}

abbrev parts : List Part
parts = listed (spec "repo.read" "*" [] ∷ []) ∷ listed (spec "test.run" "*" [] ∷ []) ∷ []

abbrev options : ContextOptions
options = record {
  run_id = "run";
  actor_id = "coder";
  parent_id = none;
  capabilities = some (compose "engineer" parts).capabilities;
  workspace_root = none;
  policy = none;
}

abbrev ctx : ExecutionContext
ctx = create_execution_context options

abbrev world : World ℕ
world = record { log = []; outside = 0 }

abbrev ended : Result String Outcome × World ℕ
ended = execute "test.run" null ctx (("test.run", counting) ∷ []) world

tested : execute "test.run" null ctx (("test.run", counting) ∷ []) world ≡ (ok done, ended.1)
unfolding execute execute_allowed after_check after_run resolve emit create_execution_context
    default_policy compose get spec Capability.unseen Capability.flat_parts part_capabilities
tested = refl

execute-Ran_example : Ran "test.run" null ctx (("test.run", counting) ∷ []) world done ended.1
execute-Ran_example =
    execute-Ran "test.run" null ctx (("test.run", counting) ∷ []) world done ended.1 refl tested

execute-compose_example :
    any (λ p. any (names_action "test.run") (part_capabilities p)) parts ≡ true
execute-compose_example =
    execute-compose "test.run" "engineer" null options parts (("test.run", counting) ∷ []) world
      done ended.1 refl refl refl tested
