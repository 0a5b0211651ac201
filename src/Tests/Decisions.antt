-- ===== src/Tests/Decisions.antt =====
-- The policy engine and the immune gate at concrete requests.
use chat_ai.Base.{
  ℕ, String, Bool, true, false, not, [], ◌∷◌, none, ◌≡◌, refl, if◌then◌else◌, keep, is_some, ◌&&◌,
}
use chat_ai.Policy.{Grant, GrantEffect, PolicyEngine, default_approval_policy, evaluate}
use chat_ai.Policy.Precedence.{denies, allows, must_approve, evaluate_lem}
use chat_ai.Immune.Types.{PrincipalType, TrustState, ImmuneRequest, Detection, runaway_loop}
use chat_ai.Immune.Detector.{is_privileged}
use chat_ai.Immune.Risk.{assess, firewall}
use chat_ai.Immune.Gate
use chat_ai.Immune.Gate.{ImmuneGateConfig, is_dependency, decide_on}
use chat_ai.Immune.Gate.Decisions.{
  is_quiet, is_severe, is_empty, decide_on-allowed, escalation_refused,
}

abbrev write_grant : Grant
write_grant = record {
  id = "a";
  principal = "agent:coder";
  capability = "fs.write";
  scope = "*";
  effect = GrantEffect.allow;
}

abbrev etc_grant : Grant
etc_grant = record {
  id = "d";
  principal = "agent:coder";
  capability = "fs.write";
  scope = "/etc/**";
  effect = GrantEffect.deny;
}

abbrev engine : PolicyEngine
engine = record { grants = write_grant ∷ etc_grant ∷ []; approval_policy = default_approval_policy }

evaluate_lem_example :
    ((evaluate engine "agent:coder" "fs.write" "/etc/passwd").allowed ≡ (
      not (denies engine "agent:coder" "fs.write" "/etc/passwd")
      && allows engine "agent:coder" "fs.write" "/etc/passwd"))
    × ((evaluate engine "agent:coder" "fs.write" "/etc/passwd").approval_required ≡ (
        not (denies engine "agent:coder" "fs.write" "/etc/passwd")
        && allows engine "agent:coder" "fs.write" "/etc/passwd"
        && must_approve engine "fs.write"))
evaluate_lem_example = evaluate_lem engine "agent:coder" "fs.write" "/etc/passwd"

-- A regular expression engine that finds nothing.
abbrev finds_nothing : String → String → Bool
finds_nothing pattern text = false

abbrev fixed : ℕ → ℕ → String
fixed a b = "11.0"

abbrev stranger : ImmuneRequest
stranger = record {
  principal = record {
    id = "x";
    kind = PrincipalType.agent;
    trust = TrustState.unknown;
    credentials = [];
  };
  capability = "git.push";
  blast_radius = none;
  observation = none;
}

abbrev open_gate : ImmuneGateConfig
open_gate = record { level = none; cascade = none; safe_mode = false; emergency_lock = false }

push_privileged : is_privileged "git.push" ≡ true
unfolding is_privileged
push_privileged = refl

escalation_refused_example : (Gate.evaluate finds_nothing fixed open_gate stranger).allowed ≡ false
escalation_refused_example =
    escalation_refused finds_nothing fixed open_gate stranger push_privileged refl

abbrev loop : Detection
loop = record {
  kind = runaway_loop;
  detail = "agent depth 9 exceeds max 5";
  weight = 90;
  actor_id = none;
}

decide_on-allowed_example : (decide_on finds_nothing open_gate stranger (loop ∷ [])).allowed ≡ (
    not (is_some (firewall (loop ∷ [])))
    && (if is_empty (keep is_dependency (loop ∷ []))
        then is_quiet open_gate stranger (assess (loop ∷ [])).score
        else not (is_severe finds_nothing (loop ∷ []))))
decide_on-allowed_example = decide_on-allowed finds_nothing open_gate stranger (loop ∷ [])
