-- ===== src/Immune/KillSwitch/Requests.antt =====
-- Who may kill what.
use chat_ai.Base.{
  String, Bool, true, false, not, List, [], ◌∷◌, ◌++◌, Option, none, some, ◌≡◌, refl, inl, inr,
  arith, if◌then◌else◌, str_eq, eq_iff, eq_refl, includes, ◌<>◌, Bool-cases, ◌&&◌, ◌||◌,
}
use chat_ai.Base.Maps.{add}
use chat_ai.Policy
use chat_ai.Policy.{PolicyEngine, PolicyDecision}
use chat_ai.Immune.KillSwitch.{
  KillTargetType, run, agent, plugin, runner, KillRequest, KillOutcome, KillSwitch, killed_ids,
  apply, is_killed, on_decision, ask_policy, is_agent, request,
}

includes-append :
    (s : String) (xs ys : List String) → includes s (xs ++ ys) ≡ (includes s xs || includes s ys)
includes-append s [] ys = refl
includes-append s (x ∷ xs) ys = ground (arith, includes-append s xs ys)

includes-add :
    (s t : String) (xs : List String) → includes s (add t xs) ≡ (includes s xs || str_eq t s)
unfolding add
includes-add s t xs = ground (arith, includes-append s xs (t ∷ []), eq_iff t s)

abbrev pub same_type : KillTargetType → KillTargetType → Bool
same_type run run = true
same_type agent agent = true
same_type plugin plugin = true
same_type runner runner = true
same_type _ _ = false

apply-is_killed :
    (t u : KillTargetType) (id j : String) (k : KillSwitch)
    → is_killed u j (apply t id k) ≡ (is_killed u j k || (same_type t u && str_eq id j))
unfolding is_killed killed_ids apply
apply-is_killed run u id j k = ground (arith, includes-add j id k.runs)
apply-is_killed agent u id j k = ground (arith, includes-add j id k.agents)
apply-is_killed plugin u id j k = ground (arith, includes-add j id k.plugins)
apply-is_killed runner u id j k = ground (arith, includes-add j id k.runners)

same_type_refl : (t : KillTargetType) → same_type t t ≡ true
same_type_refl t = ground arith

-- The policy answers, without approval, that the requester may kill the target.
abbrev policy_agrees : Option PolicyEngine → KillRequest → Bool
policy_agrees none q = false
policy_agrees (some e) q =
    let d : PolicyDecision = Policy.evaluate e q.requester "immune.kill" q.target_id in
    d.allowed && not d.approval_required

abbrev pub may_kill : Option PolicyEngine → KillRequest → Bool
may_kill policy q =
    if is_agent q.requester
    then policy_agrees policy q
    else str_eq q.requester "system" || str_eq q.requester "immune"

-- What a request does when it is applied or refused: `applied` and the switch agree.
abbrev pub Applies : Bool → KillRequest → KillSwitch → KillOutcome × KillSwitch → Type 0
Applies b q k out =
    (out.0.applied ≡ b)
    × ((u : KillTargetType) (j : String)
        → is_killed u j out.1
          ≡ (is_killed u j k || (b && same_type q.target_type u && str_eq q.target_id j)))

refuse-Applies :
    (q : KillRequest) (k : KillSwitch) (reason : String)
    → Applies false q k (record { approved = false; applied = false; reason = reason }, k)
refuse-Applies q k reason = (refl, λ u j. ground arith)

grant-Applies :
    (q : KillRequest) (k : KillSwitch) (reason : String)
    → Applies true q k (
      record { approved = true; applied = true; reason = reason },
      apply q.target_type q.target_id k,
    )
grant-Applies q k reason = (refl, λ u j. apply-is_killed q.target_type u q.target_id j k)

on_decision-Applies :
    (d : PolicyDecision) (q : KillRequest) (k : KillSwitch)
    → Applies (d.allowed && not d.approval_required) q k (on_decision d q k)
unfolding on_decision
on_decision-Applies d q k = elim (Bool-cases d.allowed) [
  | inr p ↦ rw (p, on_decision) (refuse-Applies q k ("policy denied: " <> d.reason))
  | inl p ↦ elim (Bool-cases d.approval_required) [
    | inl r ↦ rw (p, r, on_decision) (refuse-Applies q k "kill requires approval by policy")
    | inr r ↦ rw (p, r, on_decision) (grant-Applies q k "kill approved by policy")
  ]
]

ask_policy-Applies :
    (policy : Option PolicyEngine) (q : KillRequest) (k : KillSwitch)
    → Applies (policy_agrees policy q) q k (ask_policy policy q k)
unfolding ask_policy
ask_policy-Applies none q k = (refl, λ u j. ground arith)
ask_policy-Applies (some e) q k =
    on_decision-Applies (Policy.evaluate e q.requester "immune.kill" q.target_id) q k

-- A request is applied exactly when the system asks, or an agent or a tool asks that the policy
-- lets kill the target without approval; then its target is killed, and nothing else changes.
pub request-Applies :
    (policy : Option PolicyEngine) (q : KillRequest) (k : KillSwitch)
    → Applies (may_kill policy q) q k (request policy q k)
unfolding request
request-Applies policy q k = elim (Bool-cases (is_agent q.requester)) [
  | inl a ↦ rw (a) (ask_policy-Applies policy q k)
  | inr n ↦ elim (Bool-cases (str_eq q.requester "system" || str_eq q.requester "immune")) [
    | inl s ↦ rw (n, s) (grant-Applies q k "system kill")
    | inr s ↦ rw (n, s) (refuse-Applies q k ("unknown requester '" <> q.requester <> "'"))
  ]
]

-- A request that is applied has its target killed.
pub request_kills :
    (policy : Option PolicyEngine) (q : KillRequest) (k : KillSwitch)
    → may_kill policy q ≡ true
    → is_killed q.target_type q.target_id (request policy q k).1 ≡ true
request_kills policy q k h =
    let after = (request-Applies policy q k).1 q.target_type q.target_id in
    let same : same_type q.target_type q.target_type ≡ true = same_type_refl q.target_type in
    ground (arith, after, h, same, eq_refl q.target_id)
