-- ===== src/Capability/Compose.antt =====
-- What `compose` keeps of its parts.
use chat_ai.Base.{
  String, Bool, true, false, List, [], ◌∷◌, ◌++◌, ◌≡◌, refl, ◌∙◌, ap, arith, ◌||◌, str_eq, eq_iff,
  eq_refl, any, includes, Bool-cases, inl, inr,
}
use chat_ai.Capability.{
  CapabilitySpec, Part, part_capabilities, flat_parts, unseen, compose, names_action, has,
}

any-append :
    (p : CapabilitySpec → Bool) (xs ys : List CapabilitySpec)
    → any p (xs ++ ys) ≡ (any p xs || any p ys)
any-append p [] ys = refl
any-append p (x ∷ xs) ys = ground (arith, any-append p xs ys)

includes-last :
    (a b : String) (xs : List String) → includes a (xs ++ b ∷ []) ≡ (includes a xs || str_eq b a)
includes-last a b [] = ground arith
includes-last a b (x ∷ xs) = ground (arith, includes-last a b xs)

unseen-any :
    (a : String) (seen : List String) (cs : List CapabilitySpec)
    → (includes a seen || any (names_action a) (unseen seen cs))
      ≡ (includes a seen || any (names_action a) cs)
unfolding unseen
unseen-any a seen [] = refl
unseen-any a seen (c ∷ cs) = elim (Bool-cases (includes c.action seen)) [
  | inl known ↦ ground (arith, known, unseen-any a seen cs, eq_iff c.action a)
  | inr new ↦ ground (
    arith,
    new,
    unseen-any a (seen ++ c.action ∷ []) cs,
    includes-last a c.action seen,
    eq_iff c.action a,
  )
]

-- No two capabilities have one action.
abbrev pub Distinct : List CapabilitySpec → Type 0
Distinct [] = Unit
Distinct (c ∷ cs) = (any (names_action c.action) cs ≡ false) × Distinct cs

unseen-none :
    (a : String) (seen : List String) (cs : List CapabilitySpec)
    → includes a seen ≡ true
    → any (names_action a) (unseen seen cs) ≡ false
unfolding unseen
unseen-none a seen [] h = refl
unseen-none a seen (c ∷ cs) h = elim (Bool-cases (includes c.action seen)) [
  | inl known ↦ ground (arith, known, unseen-none a seen cs h)
  | inr new ↦ ground (
    arith,
    new,
    h,
    unseen-none a (seen ++ c.action ∷ []) cs,
    includes-last a c.action seen,
    eq_iff c.action a,
  )
]

unseen-Distinct : (seen : List String) (cs : List CapabilitySpec) → Distinct (unseen seen cs)
unfolding unseen
unseen-Distinct seen [] = tt
unseen-Distinct seen (c ∷ cs) = elim (Bool-cases (includes c.action seen)) [
  | inl known ↦ rw (known, unseen) (unseen-Distinct seen cs)
  | inr new ↦
      rw (new, unseen)
        (
          unseen-none c.action (seen ++ c.action ∷ []) cs
              (includes-last c.action c.action seen ∙ ground (arith, eq_refl c.action)),
          unseen-Distinct (seen ++ c.action ∷ []) cs,
        )
]

flat-any :
    (a : String) (parts : List Part)
    → any (names_action a) (flat_parts parts)
      ≡ any (λ p. any (names_action a) (part_capabilities p)) parts
unfolding flat_parts
flat-any a [] = refl
flat-any a (p ∷ ps) =
    any-append (names_action a) (part_capabilities p) (flat_parts ps)
    ∙ ap (λ (b : Bool). any (names_action a) (part_capabilities p) || b) (flat-any a ps)

-- A composed set has exactly the actions that its parts have, each of them once.
pub has-compose :
    (id action : String) (parts : List Part)
    → (has (compose id parts) action
        ≡ any (λ p. any (names_action action) (part_capabilities p)) parts)
      × Distinct (compose id parts).capabilities
unfolding has compose
has-compose id action parts = (
  unseen-any action [] (flat_parts parts) ∙ flat-any action parts,
  unseen-Distinct [] (flat_parts parts),
)
