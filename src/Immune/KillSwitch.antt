-- ===== src/Immune/KillSwitch.antt =====
-- kernel/immune/src/kill-switch.ts. The policy that the constructor may be given is that of
-- kernel/policy/src/policy-engine.ts.
pub mod Requests
use chat_ai.Base.{
  String, Bool, true, false, not, List, [], ◌∷◌, Option, none, some, ◌<>◌, if◌then◌else◌, str_eq,
  starts_with, includes, ◌||◌,
}
use chat_ai.Base.Maps
use chat_ai.Policy
use chat_ai.Policy.{PolicyEngine, PolicyDecision}

-- `KillTargetType`.
pub data KillTargetType : Type 0 where
  run agent plugin runner : KillTargetType

-- `KillRequest`.
pub record KillRequest : Type 0 where
  pub target_type : KillTargetType
  pub target_id : String
  pub reason : String
  pub requester : String

-- `KillOutcome`.
pub record KillOutcome : Type 0 where
  pub approved : Bool
  pub applied : Bool
  pub reason : String

-- The map `killed`, whose four sets are there from the start.
pub record KillSwitch : Type 0 where
  pub runs : List String
  pub agents : List String
  pub plugins : List String
  pub runners : List String

unfoldable pub new_switch : KillSwitch
new_switch = record { runs = []; agents = []; plugins = []; runners = [] }

-- `killed.get(type)`, which `killedIds` copies.
unfoldable pub killed_ids : KillTargetType → KillSwitch → List String
killed_ids run k = k.runs
killed_ids agent k = k.agents
killed_ids plugin k = k.plugins
killed_ids runner k = k.runners

-- `apply`.
unfoldable pub apply : KillTargetType → String → KillSwitch → KillSwitch
apply run id k = record k { runs = Maps.add id k.runs }
apply agent id k = record k { agents = Maps.add id k.agents }
apply plugin id k = record k { plugins = Maps.add id k.plugins }
apply runner id k = record k { runners = Maps.add id k.runners }

-- `isKilled`.
unfoldable pub is_killed : KillTargetType → String → KillSwitch → Bool
unfolding killed_ids
is_killed type id k = includes id (killed_ids type k)

abbrev refuse : String → KillSwitch → KillOutcome × KillSwitch
refuse reason k = (record { approved = false; applied = false; reason = reason }, k)

abbrev grant : String → KillRequest → KillSwitch → KillOutcome × KillSwitch
grant reason q k =
    (record { approved = true; applied = true; reason = reason }, apply q.target_type q.target_id k)

-- The answer to a policy decision.
unfoldable pub on_decision : PolicyDecision → KillRequest → KillSwitch → KillOutcome × KillSwitch
on_decision d q k =
    if not d.allowed
    then refuse ("policy denied: " <> d.reason) k
    else if d.approval_required
    then refuse "kill requires approval by policy" k
    else grant "kill approved by policy" q k

unfoldable pub ask_policy :
    Option PolicyEngine → KillRequest → KillSwitch → KillOutcome × KillSwitch
unfolding on_decision
ask_policy none q k = refuse "kill requests require a policy evaluator" k
ask_policy (some e) q k = on_decision (Policy.evaluate e q.requester "immune.kill" q.target_id) q k

abbrev pub is_agent : String → Bool
is_agent requester = starts_with requester "agent:" || starts_with requester "tool:"

-- `request`.
unfoldable pub request : Option PolicyEngine → KillRequest → KillSwitch → KillOutcome × KillSwitch
unfolding ask_policy
request policy q k =
    if is_agent q.requester
    then ask_policy policy q k
    else if str_eq q.requester "system" || str_eq q.requester "immune"
    then grant "system kill" q k
    else refuse ("unknown requester '" <> q.requester <> "'") k
