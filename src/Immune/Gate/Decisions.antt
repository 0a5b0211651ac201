-- ===== src/Immune/Gate/Decisions.antt =====
-- What the gate lets through, whatever the detections, and what it never lets through.
use chat_ai.Base.{
  ℕ, String, Bool, true, false, not, List, [], ◌∷◌, ◌++◌, some, ◌≡◌, refl, ◌∙◌, inl, inr, arith,
  if◌then◌else◌, any, keep, is_some, get_or, leb, ltb, str_eq, eq_iff, Bool-cases, Option-cases,
  ◌&&◌, ◌||◌,
}
use chat_ai.Immune.Types.{
  ImmunityLevel, green, yellow, orange, red, black, immunity_order, RiskReasonKind,
  permission_escalation, secret_access_anomaly, ledger_tampering_attempt, kernel_integrity_failure,
  prompt_injection, tool_poisoning, memory_poisoning, RiskScore, ImmuneRequest, Detection,
  Principal,
}
use chat_ai.Immune.Detector.{
  is_privileged, is_distrusted, detection, when, check_privilege_escalation, both, flat, checks,
  detect,
}
use chat_ai.Immune.Risk.{assess, firewall, first_of, verdict_on}
use chat_ai.Immune.Gate.{
  ImmuneGateConfig, level_for_score, max_level, is_write_or_risky, by_level, is_dependency,
  on_dependency, on_risk, on_dependencies, on_verdict, decide_on, observation_of, evaluate,
}

low_levels :
    (a b : ImmunityLevel)
    → leb (immunity_order (max_level a b)) 1
      ≡ (leb (immunity_order a) 1 && leb (immunity_order b) 1)
unfolding max_level immunity_order
low_levels a b = ground arith

low_score : (s : ℕ) → leb (immunity_order (level_for_score s)) 1 ≡ ltb s 40
unfolding level_for_score immunity_order
low_score s = ground arith

by_level-allowed :
    (l : ImmunityLevel) (risk : RiskScore) (reasons : List String) (approval : Bool)
    → (by_level l risk reasons approval).allowed ≡ leb (immunity_order l) 1
unfolding by_level immunity_order
by_level-allowed green risk reasons approval = refl
by_level-allowed yellow risk reasons approval = refl
by_level-allowed orange risk reasons approval = refl
by_level-allowed red risk reasons approval = refl
by_level-allowed black risk reasons approval = refl

abbrev pub is_empty : {A : Type 0} → List A → Bool
is_empty [] = true
is_empty (x ∷ xs) = false

-- The configured level and the score are both below ORANGE, and safe mode does not forbid it.
abbrev pub is_quiet : ImmuneGateConfig → ImmuneRequest → ℕ → Bool
is_quiet c q score =
    not (c.safe_mode && is_write_or_risky q.capability)
    && (leb (immunity_order (get_or c.level green)) 1 && ltb score 40)

module _ (matches : String → String → Bool) where
  on_risk-allowed :
      (c : ImmuneGateConfig) (q : ImmuneRequest) (risk : RiskScore) (reasons : List String)
      → (on_risk matches c q risk reasons).allowed ≡ is_quiet c q risk.score
  unfolding on_risk
  on_risk-allowed c q risk reasons =
      let bound = low_levels (get_or c.level green) (level_for_score risk.score) in
      let score = low_score risk.score in
      elim (Bool-cases (c.safe_mode && is_write_or_risky q.capability)) [
        | inl s ↦ rw (s, on_risk) refl
        | inr s ↦
            rw (s, on_risk)
              (by_level-allowed (max_level (get_or c.level green) (level_for_score risk.score)) risk
                  _ _
                ∙ rw (bound, score) refl)
      ]

  -- Some dependency is known to be vulnerable or to have an install script.
  abbrev pub is_severe : List Detection → Bool
  is_severe ds =
      any (λ d. matches "known vulnerability|install script" d.detail) (keep is_dependency ds)

  on_dependencies-allowed :
      (c : ImmuneGateConfig) (q : ImmuneRequest) (risk : RiskScore) (reasons : List String)
      (deps : List Detection)
      → (on_dependencies matches c q risk reasons deps).allowed ≡ (
          if is_empty deps
          then is_quiet c q risk.score
          else not (any (λ d. matches "known vulnerability|install script" d.detail) deps))
  unfolding on_dependencies on_dependency
  on_dependencies-allowed c q risk reasons [] = on_risk-allowed c q risk reasons
  on_dependencies-allowed c q risk reasons (d ∷ ds) = ground arith

  -- The gate, not locked, allows a request exactly when no detection is one that the firewall
  -- stops, and either there are dependency anomalies and none is severe, or there is none and the
  -- request is quiet. In the first case neither the score nor the level nor safe mode counts.
  pub decide_on-allowed :
      (c : ImmuneGateConfig) (q : ImmuneRequest) (ds : List Detection)
      → (decide_on matches c q ds).allowed ≡ (
          not (is_some (firewall ds))
          && (if is_empty (keep is_dependency ds)
              then is_quiet c q (assess ds).score
              else not (is_severe ds)))
  unfolding decide_on on_verdict
  decide_on-allowed c q ds = elim (Option-cases (firewall ds)) [
    | inl e ↦ rw (e, on_verdict) (on_dependencies-allowed c q (assess ds) _ (keep is_dependency ds))
    | inr (v, e) ↦ rw (e, on_verdict) refl
  ]

abbrev pub is_stopped : RiskReasonKind → Bool
is_stopped prompt_injection = true
is_stopped memory_poisoning = true
is_stopped tool_poisoning = true
is_stopped permission_escalation = true
is_stopped secret_access_anomaly = true
is_stopped ledger_tampering_attempt = true
is_stopped kernel_integrity_failure = true
is_stopped _ = false

-- The firewall speaks exactly when some detection is of one of seven kinds.
pub firewall-is_some :
    (ds : List Detection) → is_some (firewall ds) ≡ any (λ d. is_stopped d.kind) ds
unfolding firewall first_of verdict_on
firewall-is_some [] = refl
firewall-is_some (d ∷ ds) = ground (arith, firewall-is_some ds)

any-append :
    (p : Detection → Bool) (xs ys : List Detection) → any p (xs ++ ys) ≡ (any p xs || any p ys)
any-append p [] ys = refl
any-append p (x ∷ xs) ys = ground (arith, any-append p xs ys)

escalation_stopped :
    (p : Principal) (capability : String)
    → is_privileged capability ≡ true
    → is_distrusted p.trust ≡ true
    → any (λ d. is_stopped d.kind) (check_privilege_escalation p capability) ≡ true
unfolding check_privilege_escalation when detection
escalation_stopped p capability a b = ground arith

not_privileged : is_privileged "" ≡ false
unfolding is_privileged
not_privileged = refl

module _ (matches : String → String → Bool) (to_fixed : ℕ → ℕ → String) where
  both_stopped :
      (p : Principal) (capability : String)
      → is_privileged capability ≡ true
      → is_distrusted p.trust ≡ true
      → any
          (λ d. is_stopped d.kind)
          (both matches to_fixed (some p) (some capability) check_privilege_escalation)
        ≡ true
  unfolding both
  both_stopped p capability a b = elim (Bool-cases (str_eq capability "")) [
    | inl e ↦ ground (arith, eq_iff capability "", not_privileged)
    | inr e ↦ rw (e) (escalation_stopped p capability a b)
  ]

  -- The firewall stops one of the detections of the checks.
  record Stops (dss : List (List Detection)) : Type 0 where
    pub found : any (λ d. is_stopped d.kind) (flat matches to_fixed dss) ≡ true

  Stops-later :
      (ds : List Detection) (rest : List (List Detection)) → Stops rest → Stops (ds ∷ rest)
  unfolding flat
  Stops-later ds rest h = record {
    found =
        ground
          (arith, any-append (λ d. is_stopped d.kind) ds (flat matches to_fixed rest), h.found);
  }

  Stops-now :
      (ds : List Detection) (rest : List (List Detection))
      → any (λ d. is_stopped d.kind) ds ≡ true
      → Stops (ds ∷ rest)
  unfolding flat
  Stops-now ds rest h = record {
    found = ground (arith, any-append (λ d. is_stopped d.kind) ds (flat matches to_fixed rest));
  }

  escalation_detected :
      (q : ImmuneRequest)
      → is_privileged q.capability ≡ true
      → is_distrusted q.principal.trust ≡ true
      → Stops (checks matches to_fixed (observation_of matches to_fixed q))
  unfolding checks observation_of
  escalation_detected q a b = Stops-later _ _ (
      Stops-later _ _ (Stops-later _ _ (Stops-now _ _ (both_stopped q.principal q.capability a b))))

  -- A request for a privileged capability by a principal that is UNKNOWN, SUSPICIOUS or REVOKED is
  -- never allowed, whatever else is observed and however the gate is configured.
  pub escalation_refused :
      (c : ImmuneGateConfig) (q : ImmuneRequest)
      → is_privileged q.capability ≡ true
      → is_distrusted q.principal.trust ≡ true
      → (evaluate matches to_fixed c q).allowed ≡ false
  unfolding evaluate detect
  escalation_refused c q a b = elim (Bool-cases c.emergency_lock) [
    | inl l ↦ rw (l) refl
    | inr l ↦
        let ds : List Detection = detect matches to_fixed (observation_of matches to_fixed q) in
        rw
          (
            l,
            decide_on-allowed matches c q ds,
            firewall-is_some ds,
            (escalation_detected q a b).found,
          )
          refl
  ]
