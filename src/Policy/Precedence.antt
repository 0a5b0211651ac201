-- ===== src/Policy/Precedence.antt =====
-- A deny grant has precedence over every allow grant, in whatever order they were added.
use chat_ai.Base.{
  if◌then◌else◌, String, Bool, true, false, not, List, [], ◌∷◌, ◌++◌, Option, none, some, ok, ◌≡◌,
  ◌∙◌, refl, inl, inr, arith, any, keep, find, is_some, str_eq, get_or, Bool-cases, Option-cases,
  ◌&&◌, ◌||◌, eq_iff,
}
use chat_ai.Base.Maps
use chat_ai.Policy.{
  Grant, PolicyEngine, ApprovalRequirement, auto, approval, is_deny, is_allow, is_relevant, granted,
  decide_allow, decide, evaluate, requirement, is_inherited, add_grant, remove_grant,
}

module _ {A : Type 0} where
  is_some-find-keep :
      (p q : A → Bool) (xs : List A) → is_some (find q (keep p xs)) ≡ any (λ x. p x && q x) xs
  is_some-find-keep p q [] = refl
  is_some-find-keep p q (x ∷ xs) = ground (arith, is_some-find-keep p q xs)

-- Some relevant grant denies, some relevant grant allows.
abbrev pub denies : PolicyEngine → String → String → String → Bool
denies e p c s = any (λ g. is_relevant p c s g && is_deny g) e.grants

abbrev pub allows : PolicyEngine → String → String → String → Bool
allows e p c s = any (λ g. is_relevant p c s g && is_allow g) e.grants

abbrev is_approval : ApprovalRequirement → Bool
is_approval approval = true
is_approval auto = false

abbrev is_auto : Option ApprovalRequirement → Bool
is_auto none = false
is_auto (some r) = not (is_approval r)

-- The policy says `auto` of the capability.
abbrev pub says_auto : PolicyEngine → String → Bool
says_auto e c = is_auto (Maps.get c e.approval_policy)

-- The policy says nothing of the capability, which is the name of an inherited member.
abbrev pub slips_through : PolicyEngine → String → Bool
slips_through e c = not (is_some (Maps.get c e.approval_policy)) && is_inherited c

abbrev pub must_approve : PolicyEngine → String → Bool
must_approve e c = not (says_auto e c) && not (slips_through e c)

requirement_cases :
    (o : Option ApprovalRequirement) (member : Bool)
    → is_approval (get_or o (if member then auto else approval))
      ≡ (not (is_auto o) && not (not (is_some o) && member))
requirement_cases none true = refl
requirement_cases none false = refl
requirement_cases (some auto) member = refl
requirement_cases (some approval) member = refl

requirement_lem : (e : PolicyEngine) (c : String) → is_approval (requirement e c) ≡ must_approve e c
unfolding requirement
requirement_lem e c = requirement_cases (Maps.get c e.approval_policy) (is_inherited c)

granted-parts :
    (c : String) (r : ApprovalRequirement)
    → ((granted c r).allowed ≡ true) × ((granted c r).approval_required ≡ is_approval r)
unfolding granted
granted-parts c auto = (refl, refl)
granted-parts c approval = (refl, refl)

decide-parts :
    (e : PolicyEngine) (c s : String) (rel : List Grant) (o : Option Grant)
    → ((decide e c s rel o).allowed ≡ (not (is_some o) && is_some (find is_allow rel)))
      × ((decide e c s rel o).approval_required
          ≡ (not (is_some o) && is_some (find is_allow rel) && must_approve e c))
unfolding decide decide_allow
decide-parts e c s rel (some g) = (refl, refl)
decide-parts e c s rel none = elim (Option-cases (find is_allow rel)) [
  | inl n ↦ rw (n, decide_allow) (refl, refl)
  | inr (g, n) ↦
      let (allowed, asked) = granted-parts c (requirement e c) in
      rw (n, decide_allow) (allowed, asked ∙ requirement_lem e c)
]

-- A request is allowed exactly when some relevant grant allows it and none denies it; approval is
-- asked for exactly when it is allowed and neither the policy says `auto` of the capability, nor is
-- the capability one that the policy is silent on and the name of a member of every object.
pub evaluate_lem :
    (e : PolicyEngine) (p c s : String)
    → ((evaluate e p c s).allowed ≡ (not (denies e p c s) && allows e p c s))
      × ((evaluate e p c s).approval_required
          ≡ (not (denies e p c s) && allows e p c s && must_approve e c))
unfolding evaluate
evaluate_lem e p c s =
    let d = is_some-find-keep (is_relevant p c s) is_deny e.grants in
    let a = is_some-find-keep (is_relevant p c s) is_allow e.grants in
    rw (← d, ← a)
      (decide-parts e c s (keep (is_relevant p c s) e.grants)
        (find is_deny (keep (is_relevant p c s) e.grants)))

-- The ids of the grants, none of which is there twice.
abbrev pub distinct : List Grant → Bool
distinct [] = true
distinct (g ∷ gs) = not (any (λ h. str_eq h.id g.id) gs) && distinct gs

any-append : (p : Grant → Bool) (xs ys : List Grant) → any p (xs ++ ys) ≡ (any p xs || any p ys)
any-append p [] ys = refl
any-append p (x ∷ xs) ys = ground (arith, any-append p xs ys)

distinct-append :
    (gs : List Grant) (g : Grant)
    → distinct gs ≡ true
    → any (λ h. str_eq h.id g.id) gs ≡ false
    → distinct (gs ++ g ∷ []) ≡ true
distinct-append [] g d n = refl
distinct-append (h ∷ gs) g d n = ground (
  arith,
  eq_iff h.id g.id,
  eq_iff g.id h.id,
  any-append (λ k. str_eq k.id h.id) gs (g ∷ []),
  distinct-append gs g,
)

any-keep : (p q : Grant → Bool) (gs : List Grant) → any p gs ≡ false → any p (keep q gs) ≡ false
any-keep p q [] n = refl
any-keep p q (g ∷ gs) n = ground (arith, any-keep p q gs)

distinct-keep :
    (q : Grant → Bool) (gs : List Grant) → distinct gs ≡ true → distinct (keep q gs) ≡ true
distinct-keep q [] d = refl
distinct-keep q (g ∷ gs) d =
    ground (arith, distinct-keep q gs, any-keep (λ h. str_eq h.id g.id) q gs)

-- `addGrant` and `removeGrant` keep the ids of the grants distinct.
pub grants_distinct :
    (e : PolicyEngine) (g : Grant) (id : String)
    → distinct e.grants ≡ true
    → ((f : PolicyEngine) → add_grant g e ≡ ok f → distinct f.grants ≡ true)
      × (distinct (remove_grant id e).grants ≡ true)
unfolding add_grant remove_grant
grants_distinct e g id d = (
  λ f a. elim (Bool-cases (any (λ h. str_eq h.id g.id) e.grants)) [
    | inl there ↦ ground (arith)
    | inr new ↦ ground (arith, distinct-append e.grants g)
  ],
  distinct-keep _ e.grants d,
)
