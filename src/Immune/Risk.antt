-- ===== src/Immune/Risk.antt =====
-- kernel/immune/src/risk-engine.ts, blast-radius.ts and policy-firewall.ts.
use chat_ai.Base.{
  ℕ, ◌+◌, ◌*◌, String, Bool, true, List, [], ◌∷◌, Option, none, some, ◌<>◌, if◌then◌else◌, length,
  map, leb, ltb, ◌&&◌,
}
use chat_ai.Immune.Types.{
  RiskReasonKind, permission_escalation, secret_access_anomaly, ledger_tampering_attempt,
  kernel_integrity_failure, prompt_injection, tool_poisoning, memory_poisoning, RiskReason,
  RiskScore, RiskSeverity, low, medium, high, critical, Detection, BlastRadius, blast_radius_score,
  ImmuneAction, min, block, quarantine, kill,
}

-- `severityOf`.
unfoldable pub severity_of : ℕ → RiskSeverity
severity_of score =
    if leb 90 score
    then critical
    else if leb 70 score
    then high
    else if leb 40 score
    then medium
    else low

-- `clamp`.
unfoldable pub clamp : ℕ → ℕ → ℕ → ℕ
clamp n lowest highest = min highest (if leb lowest n then n else lowest)

-- `reasons.reduce((sum, r) => sum + r.weight, 0)`.
unfoldable pub total_weight : List RiskReason → ℕ
total_weight [] = 0
total_weight (r ∷ rs) = r.weight + total_weight rs

abbrev reason_of : Detection → RiskReason
reason_of d = record { kind = d.kind; detail = d.detail; weight = d.weight }

confidence_of : List Detection → ℕ
confidence_of [] = 100
confidence_of (d ∷ ds) = min 100 (50 + min 50 (length (d ∷ ds) * 15))

-- `RiskEngine.evaluate`.
unfoldable pub assess : List Detection → RiskScore
unfolding clamp confidence_of
assess ds =
    let reasons : List RiskReason = map reason_of ds in
    let score : ℕ = clamp (total_weight reasons) 0 100 in
    record {
      score = score;
      confidence = confidence_of ds;
      reasons = reasons;
      severity = severity_of score;
    }

-- `blastRadiusProduct`.
unfoldable pub blast_radius_product : RiskScore → Option BlastRadius → ℕ
blast_radius_product risk radius = risk.score * blast_radius_score radius

-- `blastRadiusGate.requiresApproval`.
unfoldable pub requires_approval : RiskScore → Option BlastRadius → ℕ → Bool
requires_approval risk radius threshold =
    ltb 0 (blast_radius_score radius) && leb threshold (blast_radius_product risk radius)

-- `FirewallVerdict`.
pub record FirewallVerdict : Type 0 where
  pub blocked : Bool
  pub action : ImmuneAction
  pub reason : String

abbrev stop : ImmuneAction → String → Option FirewallVerdict
stop action reason = some (record { blocked = true; action = action; reason = reason })

-- The `switch` of `PolicyFirewall.evaluate`.
unfoldable pub verdict_on : RiskReasonKind → String → Option FirewallVerdict
verdict_on prompt_injection detail = stop block ("prompt injection: " <> detail)
verdict_on memory_poisoning detail = stop block ("memory poisoning: " <> detail)
verdict_on tool_poisoning detail = stop quarantine ("tool poisoning: " <> detail)
verdict_on permission_escalation detail = stop block ("privilege escalation: " <> detail)
verdict_on secret_access_anomaly detail = stop block ("secret access anomaly: " <> detail)
verdict_on ledger_tampering_attempt detail = stop block ("ledger tampering: " <> detail)
verdict_on kernel_integrity_failure detail = stop kill ("kernel integrity failure: " <> detail)
verdict_on _ detail = none

unfoldable pub first_of : Option FirewallVerdict → Option FirewallVerdict → Option FirewallVerdict
first_of none rest = rest
first_of (some v) rest = some v

-- `PolicyFirewall.evaluate`.
unfoldable pub firewall : List Detection → Option FirewallVerdict
unfolding verdict_on first_of
firewall [] = none
firewall (d ∷ ds) = first_of (verdict_on d.kind d.detail) (firewall ds)
