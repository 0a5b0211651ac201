-- ===== src/Policy.antt =====
-- kernel/policy/src/policy-engine.ts: grants, scopes and the approval policy.
pub mod Precedence
use Prim.Native.String.{len, slice}
use chat_ai.Base.{
  ℕ, ◌-◌, String, Bool, true, false, not, List, [], ◌∷◌, ◌++◌, Option, none, some, Result, ok, err,
  ◌<>◌, if◌then◌else◌, any, keep, find, str_eq, starts_with, leb, get_or, ◌&&◌,
}
use chat_ai.Base.Maps
use chat_ai.Base.Maps.{Map}

-- `GrantEffect`.
pub data GrantEffect : Type 0 where
  allow deny : GrantEffect

-- `Grant`.
pub record Grant : Type 0 where
  pub id : String
  pub principal : String
  pub capability : String
  pub scope : String
  pub effect : GrantEffect

-- `PolicyDecision`.
pub record PolicyDecision : Type 0 where
  pub allowed : Bool
  pub approval_required : Bool
  pub reason : String

-- `ApprovalRequirement`.
pub data ApprovalRequirement : Type 0 where
  auto approval : ApprovalRequirement

-- `DEFAULT_APPROVAL_POLICY`.
unfoldable pub default_approval_policy : Map ApprovalRequirement
default_approval_policy =
    ("repo.read", auto)
    ∷ ("repo.write", auto)
    ∷ ("git.commit", auto)
    ∷ ("git.push", approval)
    ∷ ("shell.execute", approval)
    ∷ ("network.http", auto)
    ∷ ("secret.read", approval)
    ∷ ("deployment.create", approval)
    ∷ ("deployment.delete", approval)
    ∷ ("browser.navigate", auto)
    ∷ ("fs.read", auto)
    ∷ ("fs.write", auto)
    ∷ ("db.query", approval)
    ∷ []

-- `s.endsWith(t)`.
abbrev ends_with : String → String → Bool
ends_with s t = leb (len t) (len s) && str_eq (slice s (len s - len t) (len s)) t

-- `s.slice(0, -n)`.
abbrev drop_end : String → ℕ → String
drop_end s n = slice s 0 (len s - n)

-- `scopeMatches`.
unfoldable pub scope_matches : String → String → Bool
scope_matches pattern scope =
    if str_eq pattern "*"
    then true
    else if ends_with pattern "**"
    then starts_with scope (drop_end pattern 2)
    else if ends_with pattern "*"
    then starts_with scope (drop_end pattern 1)
    else str_eq pattern scope

-- The fields of `PolicyEngine`.
pub record PolicyEngine : Type 0 where
  pub grants : List Grant
  pub approval_policy : Map ApprovalRequirement

abbrev pub is_deny : Grant → Bool
is_deny g = elim g.effect [ deny ↦ true | allow ↦ false ]

abbrev pub is_allow : Grant → Bool
is_allow g = elim g.effect [ allow ↦ true | deny ↦ false ]

-- `addGrant`, with the message of the error.
unfoldable pub add_grant : Grant → PolicyEngine → Result String PolicyEngine
add_grant g e =
    if any (λ h. str_eq h.id g.id) e.grants
    then err ("grant '" <> g.id <> "' already exists")
    else ok (record e { grants = e.grants ++ g ∷ [] })

-- `removeGrant`.
unfoldable pub remove_grant : String → PolicyEngine → PolicyEngine
remove_grant id e = record e { grants = keep (λ g. not (str_eq g.id id)) e.grants }

-- The test of `filter` in `evaluate`.
unfoldable pub is_relevant : String → String → String → Grant → Bool
unfolding scope_matches
is_relevant principal capability scope g =
    str_eq g.principal principal && (str_eq g.capability capability && scope_matches g.scope scope)

abbrev no_decision : String → PolicyDecision
no_decision reason = record { allowed = false; approval_required = false; reason = reason }

-- The answer for a capability that a grant allows.
unfoldable pub granted : String → ApprovalRequirement → PolicyDecision
granted capability approval = record {
  allowed = true;
  approval_required = true;
  reason = "'" <> capability <> "' requires approval by policy";
}
granted capability auto = record {
  allowed = true;
  approval_required = false;
  reason = "allowed by policy";
}

-- The members that every JavaScript object inherits from `Object.prototype`.
abbrev pub inherited_members : List String
inherited_members =
    "constructor" ∷ "toString" ∷ "toLocaleString" ∷ "valueOf" ∷ "hasOwnProperty" ∷ "isPrototypeOf"
    ∷ "propertyIsEnumerable" ∷ "__proto__" ∷ "__defineGetter__" ∷ "__defineSetter__"
    ∷ "__lookupGetter__" ∷ "__lookupSetter__" ∷ []

abbrev pub is_inherited : String → Bool
is_inherited capability = any (λ m. str_eq m capability) inherited_members

-- `this.approvalPolicy[capability] ?? 'approval'`. An inherited member is found and is not
-- 'approval', so that it does what 'auto' does.
unfoldable pub requirement : PolicyEngine → String → ApprovalRequirement
requirement e capability =
    get_or (Maps.get capability e.approval_policy)
      (if is_inherited capability then auto else approval)

unfoldable pub decide_allow : PolicyEngine → String → String → Option Grant → PolicyDecision
unfolding granted requirement
decide_allow e capability scope none =
    no_decision ("no allow grant for '" <> capability <> "' on '" <> scope <> "'")
decide_allow e capability scope (some g) = granted capability (requirement e capability)

unfoldable pub decide : PolicyEngine → String → String → List Grant → Option Grant → PolicyDecision
unfolding decide_allow
decide e capability scope relevant (some g) =
    no_decision ("denied by grant '" <> g.id <> "' (" <> g.scope <> ")")
decide e capability scope relevant none = decide_allow e capability scope (find is_allow relevant)

-- `evaluate`.
unfoldable pub evaluate : PolicyEngine → String → String → String → PolicyDecision
unfolding is_relevant decide
evaluate e principal capability scope =
    let relevant : List Grant = keep (is_relevant principal capability scope) e.grants in
    decide e capability scope relevant (find is_deny relevant)
