-- ===== src/Immune/Runtime.antt =====
-- kernel/immune/src/runtime.ts: what the decisions of the gate do. A call that throws keeps what it
-- had written, so that a call answers and leaves a state. Ids, times and readings of the clock are
-- given.
pub mod Applies
pub mod Level
use chat_ai.Base.{
  ℕ, String, Bool, true, false, List, [], ◌∷◌, Option, none, some, Result, ok, err, ◌<>◌, ◌||◌,
  if◌then◌else◌, map, length, str_eq, ◌==◌,
}
use chat_ai.Base.Maps
use chat_ai.Base.Maps.{Map}
use chat_ai.Policy.{PolicyEngine}
use chat_ai.Ledger.{LedgerEvent, ChainVerification, valid, broken, verify_chain}
use chat_ai.Immune.Types.{
  ImmunityLevel, green, red, black, PrincipalType, ImmuneAction, ImmuneDecision, ImmuneRequest,
  RiskReason, RiskSeverity,
}
use chat_ai.Immune.Gate
use chat_ai.Immune.Gate.{ImmuneGateConfig, gate_level, max_level, join}
use chat_ai.Immune.Quarantine.{QuarantineRecord, Records, QuarantineError, quarantine_entity}
use chat_ai.Immune.KillSwitch
use chat_ai.Immune.KillSwitch.{KillTargetType, KillOutcome, KillSwitch, KillRequest}
use chat_ai.Immune.Incident.{
  IncidentRecord, IncidentEngine, IncidentError, Stamp, detect, classify_incident, contain_incident,
}
use chat_ai.Immune.Integrity.{breaches, check_all, object_of}
use chat_ai.Immune.Health.{
  Metrics, Runners, SystemHealth, snapshot, incident_opened, detected, contained,
  record_policy_violation, record_quarantine, record_kill,
}

-- The fields of `ImmuneRuntime`, those of its parts that its methods touch.
pub record ImmuneRuntime : Type 0 where
  pub gate : ImmuneGateConfig
  pub policy : Option PolicyEngine
  pub current_level : ImmunityLevel
  pub quarantine : Records
  pub incidents : IncidentEngine
  pub kill_switch : KillSwitch
  pub metrics : Metrics
  pub integrity : Map String

pub data RuntimeError : Type 0 where
  of_quarantine : QuarantineError → RuntimeError
  of_incident : IncidentError → RuntimeError

-- The ids and times of one call.
pub record CallStamp : Type 0 where
  pub now : String
  pub incident_id : String
  pub detecting : Stamp
  pub classifying : Stamp
  pub containing : Stamp
  pub opened_at : ℕ
  pub detected_at : ℕ
  pub contained_at : ℕ

abbrev pub Answer : Type 0 → Type 0
Answer A = Result RuntimeError A × ImmuneRuntime

-- `killTargetFor`.
unfoldable pub kill_target_for : PrincipalType → KillTargetType
kill_target_for PrincipalType.agent = KillTargetType.agent
kill_target_for PrincipalType.plugin = KillTargetType.plugin
kill_target_for PrincipalType.tool = KillTargetType.plugin
kill_target_for PrincipalType.runner = KillTargetType.runner
kill_target_for _ = KillTargetType.run

-- `level`.
unfoldable pub level : ImmuneRuntime → ImmunityLevel
level s = max_level s.current_level (gate_level s.gate)

-- `isKilled`.
unfoldable pub is_killed : KillTargetType → String → ImmuneRuntime → Bool
is_killed type id s = KillSwitch.is_killed type id s.kill_switch

-- `requestKill`, after the kill switch has answered and the target has been put into quarantine.
unfoldable pub killed :
    KillOutcome
    → Result QuarantineError (QuarantineRecord × Records)
    → ImmuneRuntime
    → Answer KillOutcome
killed outcome (err e) s = (err (of_quarantine e), s)
killed outcome (ok (r, records)) s = (
  ok outcome,
  record s { quarantine = records; metrics = record_kill (record_quarantine s.metrics) },
)

-- `requestKill`.
unfoldable pub request_kill :
    String → String → KillTargetType → String → String → ImmuneRuntime → Answer KillOutcome
unfolding killed
request_kill now requester type id reason s =
    let (outcome, switch) =
      KillSwitch.request s.policy
        (record { target_type = type; target_id = id; reason = reason; requester = requester })
        s.kill_switch in
    let t : ImmuneRuntime = record s { kill_switch = switch } in
    if outcome.applied
    then killed outcome (quarantine_entity id reason [] now t.quarantine) t
    else (ok outcome, t)

-- `kill`.
unfoldable pub kill : String → KillTargetType → String → String → ImmuneRuntime → Answer KillOutcome
unfolding request_kill
kill now type id reason s = request_kill now "immune" type id reason s

unfoldable pub details : List RiskReason → List String
details rs = map (λ (r : RiskReason). r.detail) rs

unfoldable pub action_name : ImmuneAction → String
action_name ImmuneAction.allow = "allow"
action_name ImmuneAction.monitor = "monitor"
action_name ImmuneAction.restrict = "restrict"
action_name ImmuneAction.quarantine = "quarantine"
action_name ImmuneAction.kill = "kill"
action_name ImmuneAction.block = "block"
action_name ImmuneAction.approval_required = "approval_required"

-- `decision.reasons.join('; ') || decision.action`.
unfoldable pub detail_of : ImmuneDecision → String
unfolding action_name
detail_of d = let text = join d.reasons in if str_eq text "" then action_name d.action else text

-- The tests of `apply`.
abbrev pub is_passing : ImmuneAction → Bool
is_passing action = elim action [
  | ImmuneAction.allow ↦ true
  | ImmuneAction.monitor ↦ true
  | ImmuneAction.approval_required ↦ true
  | _ ↦ false
]

abbrev pub is_restrict : ImmuneAction → Bool
is_restrict action = elim action [ ImmuneAction.restrict ↦ true | _ ↦ false ]

abbrev pub is_kill : ImmuneAction → Bool
is_kill action = elim action [ ImmuneAction.kill ↦ true | _ ↦ false ]

abbrev pub is_severe : ImmuneDecision → Bool
is_severe d =
    elim d.action [ ImmuneAction.quarantine ↦ true | ImmuneAction.kill ↦ true | _ ↦ false ]
    || elim d.level [ red ↦ true | black ↦ true | _ ↦ false ]

module _ (sha256 : String → String) where
  unfoldable pub raise_level : ImmunityLevel → CallStamp → ImmuneRuntime → ImmuneRuntime
  raise_level to stamp s = record s {
    metrics = contained stamp.contained_at s.metrics;
    current_level = max_level s.current_level to;
  }

  unfoldable pub contain_at :
      ImmuneDecision
      → CallStamp
      → ImmuneRuntime
      → Result IncidentError (IncidentRecord × IncidentEngine)
      → Answer (Unit {0})
  unfolding raise_level
  contain_at d stamp s (err e) = (err (of_incident e), s)
  contain_at d stamp s (ok (r, e)) = (ok tt, raise_level d.level stamp (record s { incidents = e }))

  unfoldable pub classify_at :
      ImmuneDecision
      → CallStamp
      → String
      → ImmuneRuntime
      → Result IncidentError (IncidentRecord × IncidentEngine)
      → Answer (Unit {0})
  unfolding contain_at
  classify_at d stamp detail s (err e) = (err (of_incident e), s)
  classify_at d stamp detail s (ok (r, e)) =
      contain_at d stamp (record s { incidents = e })
        (contain_incident sha256 stamp.containing stamp.incident_id detail e)

  -- `openIncident`.
  unfoldable pub open_incident :
      ImmuneDecision → CallStamp → String → String → ImmuneRuntime → Answer (Unit {0})
  unfolding classify_at action_name details
  open_incident d stamp id detail s =
      let (r, e) =
        detect sha256 stamp.detecting stamp.incident_id
          ("immune " <> (action_name d.action <> (" on '" <> (id <> "'")))) d.risk.severity
          (details d.risk.reasons) s.incidents in
      let t : ImmuneRuntime = record s {
        incidents = e;
        metrics = detected stamp.detected_at (incident_opened stamp.opened_at s.metrics);
      } in
      classify_at d stamp detail t
        (classify_incident sha256 stamp.classifying stamp.incident_id d.risk.severity e)

  -- The kill of `apply`.
  unfoldable pub apply_kill :
      ImmuneAction → PrincipalType → String → String → ImmuneRuntime → ImmuneRuntime
  unfolding kill_target_for
  apply_kill action type id detail s =
      if is_kill action
      then record s {
        kill_switch =
            (KillSwitch.request s.policy
              (record {
                target_type = kill_target_for type;
                target_id = id;
                reason = detail;
                requester = "immune";
              })
              s.kill_switch).1;
        metrics = record_kill s.metrics;
      }
      else s

  unfoldable pub isolated :
      ImmuneDecision
      → CallStamp
      → PrincipalType
      → String
      → String
      → Result QuarantineError (QuarantineRecord × Records)
      → ImmuneRuntime
      → Answer (Unit {0})
  unfolding open_incident apply_kill
  isolated d stamp type id detail (err e) s = (err (of_quarantine e), s)
  isolated d stamp type id detail (ok (r, records)) s =
      let t : ImmuneRuntime = record s {
        quarantine = records;
        metrics = record_quarantine s.metrics;
      } in
      open_incident d stamp id detail (apply_kill d.action type id detail t)

  -- `apply`.
  unfoldable pub apply_decision :
      CallStamp → ImmuneDecision → ImmuneRequest → ImmuneRuntime → Answer (Unit {0})
  unfolding isolated detail_of details
  apply_decision stamp d q s =
      if is_passing d.action
      then (ok tt, s)
      else if is_restrict d.action
      then (ok tt, record s { metrics = record_policy_violation s.metrics })
      else if is_severe d
      then isolated d stamp q.principal.kind q.principal.id (detail_of d)
          (quarantine_entity q.principal.id (detail_of d) (details d.risk.reasons) stamp.now
            s.quarantine)
          s
      else (ok tt, s)

  unfoldable pub with_decision : ImmuneDecision → Answer (Unit {0}) → Answer ImmuneDecision
  with_decision d (err e, s) = (err e, s)
  with_decision d (ok _, s) = (ok d, s)

  -- `evaluateAndApply`; `matches` and `to_fixed` are those of the gate.
  unfoldable pub evaluate_and_apply :
      (String → String → Bool)
      → (ℕ → ℕ → String)
      → CallStamp
      → ImmuneRequest
      → ImmuneRuntime
      → Answer ImmuneDecision
  unfolding apply_decision with_decision
  evaluate_and_apply matches to_fixed stamp q s =
      let d = Gate.evaluate matches to_fixed s.gate q in
      with_decision d (apply_decision stamp d q s)

  -- `opts.ledger.verifyIntegrity().valid`, or `true` with no ledger.
  unfoldable pub ledger_healthy : Option (List LedgerEvent) → Bool
  ledger_healthy none = true
  ledger_healthy (some events) = elim (verify_chain sha256 events) [
    | valid ↦ true
    | broken _ _ _ ↦ false
  ]

  -- `healthSnapshot`: the hashes at run time that it checks are those that are expected.
  unfoldable pub health_snapshot : Runners → ImmuneRuntime → SystemHealth
  unfolding ledger_healthy
  health_snapshot runners s = snapshot record {
    level = level s;
    ledger_healthy = ledger_healthy s.incidents.ledger;
    storage_healthy = true;
    kernel_healthy = length (breaches (check_all (object_of s.integrity) s.integrity)) == 0;
    runners = runners;
    incidents = length s.incidents.incidents;
  }
