-- ===== src/Immune/Health.antt =====
-- kernel/immune/src/health.ts: the health of the system, and the counters of the metrics. The
-- readings of the clock are given.
use chat_ai.Base.{
  ℕ, ◌+◌, ◌-◌, Bool, true, false, List, [], ◌∷◌, ◌++◌, ◌||◌, if◌then◌else◌, ltb, leb, ◌==◌,
}
use chat_ai.Immune.Types.{ImmunityLevel, immunity_order}

-- `SystemHealth['status']`.
pub data HealthStatus : Type 0 where
  healthy degraded critical locked : HealthStatus

-- `SystemHealth['immune']`.
pub data ImmuneStatus : Type 0 where
  watch active quarantined locked : ImmuneStatus

-- `SystemHealth['kernel']`, `'ledger'` and `'storage'`.
pub data PartStatus : Type 0 where
  healthy degraded : PartStatus

-- `runners`.
pub record Runners : Type 0 where
  pub healthy : ℕ
  pub quarantined : ℕ

-- `SystemHealth`.
pub record SystemHealth : Type 0 where
  pub status : HealthStatus
  pub kernel : PartStatus
  pub immune : ImmuneStatus
  pub ledger : PartStatus
  pub storage : PartStatus
  pub runners : Runners
  pub incidents : ℕ
  pub level : ImmunityLevel

-- The input of `snapshot`.
pub record HealthInput : Type 0 where
  pub level : ImmunityLevel
  pub ledger_healthy : Bool
  pub storage_healthy : Bool
  pub kernel_healthy : Bool
  pub runners : Runners
  pub incidents : ℕ

abbrev part_status : Bool → PartStatus
part_status true = PartStatus.healthy
part_status false = PartStatus.degraded

-- `snapshot`.
unfoldable pub snapshot : HealthInput → SystemHealth
snapshot input =
    let order : ℕ = immunity_order input.level in
    record {
      status =
          if leb 4 order
          then HealthStatus.locked
          else if order == 3
          then HealthStatus.critical
          else if leb 1 order || (ltb 0 input.runners.quarantined || ltb 0 input.incidents)
          then HealthStatus.degraded
          else HealthStatus.healthy;
      kernel = part_status input.kernel_healthy;
      immune =
          if leb 4 order
          then ImmuneStatus.locked
          else if order == 3
          then ImmuneStatus.quarantined
          else if leb 1 order
          then ImmuneStatus.active
          else ImmuneStatus.watch;
      ledger = part_status input.ledger_healthy;
      storage = part_status input.storage_healthy;
      runners = input.runners;
      incidents = input.incidents;
      level = input.level;
    }

-- The fields of `MetricsCollector`.
pub record Metrics : Type 0 where
  pub detect_deltas : List ℕ
  pub contain_deltas : List ℕ
  pub recover_deltas : List ℕ
  pub last_detection : ℕ
  pub last_containment : ℕ
  pub incidents : ℕ
  pub false_positives : ℕ
  pub policy_violations : ℕ
  pub quarantines : ℕ
  pub recoveries : ℕ
  pub recovery_failures : ℕ
  pub integrity_failures : ℕ
  pub revocations : ℕ
  pub kills : ℕ

unfoldable pub new_metrics : Metrics
new_metrics = record {
  detect_deltas = [];
  contain_deltas = [];
  recover_deltas = [];
  last_detection = 0;
  last_containment = 0;
  incidents = 0;
  false_positives = 0;
  policy_violations = 0;
  quarantines = 0;
  recoveries = 0;
  recovery_failures = 0;
  integrity_failures = 0;
  revocations = 0;
  kills = 0;
}

-- `incidentOpened`.
unfoldable pub incident_opened : ℕ → Metrics → Metrics
incident_opened now m = record m { incidents = m.incidents + 1; last_detection = now }

-- `detected`; `Math.max(0, now - last)` is the subtraction that stops at 0.
unfoldable pub detected : ℕ → Metrics → Metrics
detected now m = record m {
  detect_deltas = m.detect_deltas ++ (now - m.last_detection) ∷ [];
  last_detection = now;
}

-- `contained`.
unfoldable pub contained : ℕ → Metrics → Metrics
contained now m = record m {
  contain_deltas = m.contain_deltas ++ (now - m.last_detection) ∷ [];
  last_containment = now;
}

-- `recovered`.
unfoldable pub recovered : ℕ → Bool → Metrics → Metrics
recovered now success m = record m {
  recover_deltas = m.recover_deltas ++ (now - m.last_containment) ∷ [];
  recoveries = if success then m.recoveries + 1 else m.recoveries;
  recovery_failures = if success then m.recovery_failures else m.recovery_failures + 1;
}

-- `recordPolicyViolation`.
unfoldable pub record_policy_violation : Metrics → Metrics
record_policy_violation m = record m { policy_violations = m.policy_violations + 1 }

-- `recordQuarantine`.
unfoldable pub record_quarantine : Metrics → Metrics
record_quarantine m = record m { quarantines = m.quarantines + 1 }

-- `recordKill`.
unfoldable pub record_kill : Metrics → Metrics
record_kill m = record m { kills = m.kills + 1 }
