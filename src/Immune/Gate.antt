-- ===== src/Immune/Gate.antt =====
-- kernel/immune/src/gate.ts: the decision on a request, without side effect.
pub mod Decisions
use chat_ai.Base.{
  ℕ, String, Bool, true, false, List, [], ◌∷◌, ◌++◌, Option, none, some, ◌<>◌, if◌then◌else◌, any,
  keep, map, contains_text, starts_with, str_eq, leb, get_or, not, is_some, ◌&&◌, ◌||◌,
}
use chat_ai.Immune.Types.{
  ImmunityLevel, green, yellow, orange, red, black, immunity_order, RiskReasonKind,
  dependency_anomaly, RiskScore, ImmuneAction, allow, monitor, restrict, quarantine, kill, block,
  ImmuneDecision, ImmuneRequest, Observation, Detection, CascadeConfig, default_cascade, Principal,
}
use chat_ai.Immune.Detector
use chat_ai.Immune.Risk.{assess, firewall, FirewallVerdict, requires_approval}

-- `ImmuneGateConfig`; the policy of the configuration is not read.
pub record ImmuneGateConfig : Type 0 where
  pub level : Option ImmunityLevel
  pub cascade : Option CascadeConfig
  pub safe_mode : Bool
  pub emergency_lock : Bool

-- `levelForScore`.
unfoldable pub level_for_score : ℕ → ImmunityLevel
level_for_score score =
    if leb 90 score
    then black
    else if leb 70 score
    then red
    else if leb 40 score
    then orange
    else if leb 1 score
    then yellow
    else green

-- `maxLevel`.
unfoldable pub max_level : ImmunityLevel → ImmunityLevel → ImmunityLevel
unfolding immunity_order
max_level a b = if leb (immunity_order b) (immunity_order a) then a else b

-- `isWriteOrRisky`.
unfoldable pub is_write_or_risky : String → Bool
is_write_or_risky capability =
    starts_with capability "fs.write"
    || starts_with capability "git.push"
    || starts_with capability "shell."
    || starts_with capability "secret."
    || starts_with capability "deploy"
    || starts_with capability "deployment."
    || starts_with capability "network."
    || contains_text capability "plugin"
    || contains_text capability "db."
    || str_eq capability "repo.write"

-- `ImmuneGate.level`.
unfoldable pub gate_level : ImmuneGateConfig → ImmunityLevel
gate_level c =
    if c.emergency_lock then black else if c.safe_mode then orange else get_or c.level green

-- `decide`.
abbrev pub decide :
    Bool → ImmuneAction → ImmunityLevel → RiskScore → List String → Bool → Bool → ImmuneDecision
decide allowed action level risk reasons approval evidence = record {
  allowed = allowed;
  action = action;
  level = level;
  risk = risk;
  reasons = reasons;
  approval_required = approval;
  evidence_required = evidence;
}

-- `reasons.join('; ')`.
unfoldable pub join : List String → String
join [] = ""
join (s ∷ ss) = elim ss [ [] ↦ s | _ ∷ _ ↦ s <> "; " <> join ss ]

abbrev pub is_dependency : Detection → Bool
is_dependency d = elim d.kind [ dependency_anomaly ↦ true | _ ↦ false ]

abbrev is_block : ImmuneAction → Bool
is_block a = elim a [ block ↦ true | _ ↦ false ]

-- The last `switch` of `evaluate`.
unfoldable pub by_level : ImmunityLevel → RiskScore → List String → Bool → ImmuneDecision
by_level green risk reasons approval = decide true allow green risk reasons false false
by_level yellow risk reasons approval = decide true monitor yellow risk reasons approval true
by_level orange risk reasons approval = decide false restrict orange risk reasons approval true
by_level red risk reasons approval = decide false quarantine red risk reasons approval true
by_level black risk reasons approval = decide false kill black risk reasons approval true

module _ (matches : String → String → Bool) where
  -- Step 3 of `evaluate`, for one dependency detection or more.
  unfoldable pub on_dependency : List Detection → RiskScore → ImmuneDecision
  on_dependency ds risk =
      if any (λ d. matches "known vulnerability|install script" d.detail) ds
      then decide false block red risk (("release blocked: " <> join (map (λ d. d.detail) ds)) ∷ [])
          false true
      else decide true monitor yellow risk
          (("dependency drift: " <> join (map (λ d. d.detail) ds)) ∷ []) false true

  -- Steps 4 to 6.
  unfoldable pub on_risk :
      ImmuneGateConfig → ImmuneRequest → RiskScore → List String → ImmuneDecision
  on_risk c q risk reasons =
      if c.safe_mode && is_write_or_risky q.capability
      then decide false restrict orange risk
          ("safe-mode: write/network/secret/deploy/plugin actions blocked" ∷ []) false true
      else (let level : ImmunityLevel =
            max_level (get_or c.level green) (level_for_score risk.score) in
          let approval : Bool =
            requires_approval risk q.blast_radius
              (get_or c.cascade default_cascade).blast_radius_approval_threshold in
          by_level level risk
            (if approval
              then reasons ++ "risk × blast radius exceeds threshold — approval required" ∷ []
              else reasons)
            approval)

  unfoldable pub on_dependencies :
      ImmuneGateConfig → ImmuneRequest → RiskScore → List String → List Detection → ImmuneDecision
  unfolding on_dependency on_risk
  on_dependencies c q risk reasons [] = on_risk c q risk reasons
  on_dependencies c q risk reasons (d ∷ ds) = on_dependency (d ∷ ds) risk

  unfoldable pub on_verdict :
      ImmuneGateConfig → ImmuneRequest → List Detection → Option FirewallVerdict → ImmuneDecision
  unfolding on_dependencies
  on_verdict c q ds (some fw) =
      let risk : RiskScore = assess ds in
      decide false fw.action (level_for_score risk.score) risk
        (fw.reason ∷ map (λ r. r.detail) risk.reasons) false (not (is_block fw.action))
  on_verdict c q ds none =
      let risk : RiskScore = assess ds in
      on_dependencies c q risk (map (λ r. r.detail) risk.reasons) (keep is_dependency ds)

  -- `evaluate` from the detections on.
  unfoldable pub decide_on : ImmuneGateConfig → ImmuneRequest → List Detection → ImmuneDecision
  unfolding on_verdict
  decide_on c q ds = on_verdict c q ds (firewall ds)

  abbrev pub no_observation : Observation
  no_observation = record {
    principal = none;
    capability = none;
    input = none;
    tool_result = none;
    memory_write = none;
    artifact = none;
    dependency = none;
    usage = none;
    run_stats = none;
    integrity = none;
    repeated_failures = none;
    tool_sequence = none;
    unexpected_transition = none;
  }

  module _ (to_fixed : ℕ → ℕ → String) where
    -- `{ ...(request.observation ?? {}), principal, capability }`.
    unfoldable pub observation_of : ImmuneRequest → Observation
    observation_of q = record (get_or q.observation no_observation) {
      principal = some q.principal;
      capability = some q.capability;
    }

    -- `ImmuneGate.evaluate`.
    unfoldable pub evaluate : ImmuneGateConfig → ImmuneRequest → ImmuneDecision
    unfolding decide_on observation_of
    evaluate c q =
        if c.emergency_lock
        then decide false block black (assess []) ("emergency-lock: all execution stopped" ∷ [])
            false true
        else decide_on c q (Detector.detect matches to_fixed (observation_of q))
