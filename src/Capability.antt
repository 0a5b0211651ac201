-- ===== src/Capability.antt =====
-- kernel/capability/src/compose.ts, with `CapabilitySpec` of kernel/contracts/src/primitives.ts.
pub mod Compose
use chat_ai.Base.{
  ℕ, String, Bool, true, false, List, [], ◌∷◌, ◌++◌, ◌≡◌, refl, sym, ◌∙◌, arith, if◌then◌else◌,
  ◌<>◌, str_eq, eq_iff, any, includes, Bool-cases, inl, inr,
}
use chat_ai.Orchestrator.Json.{Json}

-- `Constraint['kind']`.
pub data ConstraintKind : Type 0 where
  approval rate_limit budget time deny : ConstraintKind

-- `Constraint`.
pub record Constraint : Type 0 where
  pub kind : ConstraintKind
  pub value : Json

-- `CapabilitySpec`.
pub record CapabilitySpec : Type 0 where
  pub id : String
  pub action : String
  pub scope : String
  pub constraints : List Constraint

-- `spec`.
unfoldable pub spec : String → String → List Constraint → CapabilitySpec
spec action scope constraints = record {
  id = action <> ("@" <> scope);
  action = action;
  scope = scope;
  constraints = constraints;
}

-- `CapabilitySet`.
pub record CapabilitySet : Type 0 where
  pub id : String
  pub capabilities : List CapabilitySpec

-- `CapabilitySet | CapabilitySpec[]`.
pub data Part : Type 0 where
  composed : CapabilitySet → Part
  listed : List CapabilitySpec → Part

unfoldable pub part_capabilities : Part → List CapabilitySpec
part_capabilities (composed s) = s.capabilities
part_capabilities (listed cs) = cs

-- `parts.flatMap`.
unfoldable pub flat_parts : List Part → List CapabilitySpec
unfolding part_capabilities
flat_parts [] = []
flat_parts (p ∷ ps) = part_capabilities p ++ flat_parts ps

-- The filter of `compose`, after the actions in `seen`.
unfoldable pub unseen : List String → List CapabilitySpec → List CapabilitySpec
unseen seen [] = []
unseen seen (c ∷ cs) =
    let known = includes c.action seen in
    let rest = unseen (if known then seen else seen ++ c.action ∷ []) cs in
    if known then rest else c ∷ rest

-- `compose`.
unfoldable pub compose : String → List Part → CapabilitySet
compose id parts = record { id = id; capabilities = unseen [] (flat_parts parts) }

abbrev pub names_action : String → CapabilitySpec → Bool
names_action action c = str_eq c.action action

-- `has`.
unfoldable pub has : CapabilitySet → String → Bool
has set action = any (names_action action) set.capabilities
