-- ===== src/Transition/Dag/Sound.antt =====
-- What a graph that passes `validateDag` is: ids are distinct, dependencies known, and no node
-- reaches itself.
use chat_ai.Base.{
  ℕ, zero, suc, ◌≤◌, ◌≡◌, refl, inl, inr, String, true, false, List, [], ◌∷◌, none, some, ok,
  length, includes, arith, eq_iff, str_eq, Bool-cases, Option-cases, All,
}
use chat_ai.Base.Maps.{get, set, get-set}
use chat_ai.Transition.Dag.{
  Mark, visiting, visited, Marks, Visit, visit, visit_all, finish, ids, id_set, deps_at,
  detect_cycle, validate_dag, unknown_of, check_deps, acyclic_or_fail,
}
use chat_ai.Transition.Dag.Fuel.{Visit-cases, Mark-cases}

-- No infinite chain of dependencies starts at the id.
pub data Grounded (deps : String → List String) : String → Type 0 where
  grounded :
      (id : String)
      → ((d : String) → includes d (deps id) ≡ true → Grounded deps d)
      → Grounded deps id

-- `y` is a dependency of `x`, or of a dependency, and so on.
pub data Reaches (deps : String → List String) : String → String → Type 0 where
  edge : {x y : String} → includes y (deps x) ≡ true → Reaches deps x y
  further : {x y z : String} → includes y (deps x) ≡ true → Reaches deps y z → Reaches deps x z

module _ (deps : String → List String) where
  then_edge : {x y z : String} → Reaches deps x y → includes z (deps y) ≡ true → Reaches deps x z
  then_edge (edge h) k = further h (edge k)
  then_edge (further h r) k = further h (then_edge r k)

  pub Grounded-acyclic : {x : String} → Grounded deps x → ¬ (Reaches deps x x)
  Grounded-acyclic (grounded x below) (edge h) = Grounded-acyclic (below x h) (edge h)
  Grounded-acyclic (grounded x below) (further {y = y} h r) =
      Grounded-acyclic (below y h) (then_edge r h)

  pub AllGrounded : Marks → Type 0
  AllGrounded marks = (id : String) → get id marks ≡ some visited → Grounded deps id

  -- An answer `false` has grounded its id and every id that it marked as visited.
  abbrev Grounds : String → Visit → Type 0
  Grounds id none = Unit {0}
  Grounds id (some (true, m)) = Unit {0}
  Grounds id (some (false, m)) = Grounded deps id × AllGrounded m

  abbrev GroundsAll : List String → Visit → Type 0
  GroundsAll ds none = Unit {0}
  GroundsAll ds (some (true, m)) = Unit {0}
  GroundsAll ds (some (false, m)) =
      ((d : String) → includes d ds ≡ true → Grounded deps d) × AllGrounded m

  add_one :
      (d : String) (ds : List String) (v : Visit)
      → Grounded deps d
      → GroundsAll ds v
      → GroundsAll (d ∷ ds) v
  add_one d ds none g h = tt
  add_one d ds (some (true, m)) g h = tt
  add_one d ds (some (false, m)) g h = (
    (λ e k. elim (Bool-cases (str_eq d e)) [
      | inl same ↦ rw (← (eq_iff d e).0 same) g
      | inr other ↦ h.0 e (ground arith)
    ]),
    h.1,
  )

  visit_all-Grounds :
      (f : String → Marks → Visit)
      → ((id : String) (marks : Marks) → AllGrounded marks → Grounds id (f id marks))
      → (ds : List String) (marks : Marks) → AllGrounded marks
      → GroundsAll ds (visit_all f ds marks)
  unfolding visit_all
  visit_all-Grounds f step [] marks g = ((λ d h. absurd (ground arith)), g)
  visit_all-Grounds f step (d ∷ ds) marks g =
      let one = step d marks g in
      elim (Visit-cases (f d marks)) [
        | inl e ↦ rw (e, visit_all) tt
        | inr (inl (m, e)) ↦ rw (e, visit_all) tt
        | inr (inr (m, e)) ↦
            let both : Grounds d (some (false, m)) = rw e at one in
            rw (e, visit_all)
              (add_one d ds (visit_all f ds m) both.0 (visit_all-Grounds f step ds m both.1))
      ]

  set-AllGrounded :
      (id : String) (v : Mark) (marks : Marks)
      → (v ≡ visited → Grounded deps id)
      → AllGrounded marks
      → AllGrounded (set id v marks)
  unfolding AllGrounded
  set-AllGrounded id v marks h g j e = elim (Bool-cases (str_eq id j)) [
    | inl same ↦ rw (← (eq_iff id j).0 same) (h (ground (arith, get-set id j v marks)))
    | inr other ↦ g j (ground (arith, get-set id j v marks))
  ]

  finish-Grounds : (id : String) (v : Visit) → GroundsAll (deps id) v → Grounds id (finish id v)
  unfolding finish
  finish-Grounds id none h = tt
  finish-Grounds id (some (true, m)) h = tt
  finish-Grounds id (some (false, m)) h =
      let g = grounded id h.0 in (g, set-AllGrounded id visited m (λ e. g) h.1)

  visit-Grounds :
      (fuel : ℕ) (id : String) (marks : Marks)
      → AllGrounded marks
      → Grounds id (visit deps fuel id marks)
  unfolding visit
  visit-Grounds zero id marks g = tt
  visit-Grounds (suc fuel) id marks g = elim (Mark-cases (get id marks)) [
    | inl e ↦
        rw (e, visit)
          (finish-Grounds id (visit_all (visit deps fuel) (deps id) (set id visiting marks)) (
            visit_all-Grounds (visit deps fuel) (visit-Grounds fuel) (deps id)
              (set id visiting marks)
              (set-AllGrounded id visiting marks (λ k. absurd (ground arith)) g)))
    | inr (inl e) ↦ rw (e, visit) tt
    | inr (inr e) ↦ rw (e, visit) (unfold AllGrounded in g id e, g)
  ]

module _ {N : Type 0} (id_of : N → String) (deps_of : N → List String) where
  abbrev pub Distinct : List N → Type 0
  Distinct [] = Unit {0}
  Distinct (n ∷ ns) = (includes (id_of n) (ids id_of deps_of ns) ≡ false) × Distinct ns

  length-id_set-le : (ns : List N) → length (id_set id_of deps_of ns) ≤ length ns
  unfolding id_set
  length-id_set-le [] = omega arith
  length-id_set-le (n ∷ ns) = ground (arith, length-id_set-le ns)

  includes-id_set :
      (k : String) (ns : List N)
      → includes k (id_set id_of deps_of ns) ≡ includes k (ids id_of deps_of ns)
  unfolding id_set
  includes-id_set k [] = refl
  includes-id_set k (n ∷ ns) =
      ground (arith, includes-id_set k ns, includes-id_set (id_of n) ns, eq_iff (id_of n) k)

  id_set-Distinct : (ns : List N) → length (id_set id_of deps_of ns) ≡ length ns → Distinct ns
  unfolding id_set
  id_set-Distinct [] h = tt
  id_set-Distinct (n ∷ ns) h = elim (Bool-cases (includes (id_of n) (id_set id_of deps_of ns))) [
    | inl e ↦ absurd (ground (arith, length-id_set-le ns))
    | inr e ↦ (ground (arith, includes-id_set (id_of n) ns), id_set-Distinct ns (ground arith))
  ]

  abbrev pub Knows : List String → List N → Type 0
  Knows known ns = All (λ n. All (λ d. includes d known ≡ true) (deps_of n)) ns

  unknown_of-All :
      (known ds : List String)
      → unknown_of id_of deps_of known ds ≡ none
      → All (λ d. includes d known ≡ true) ds
  unfolding unknown_of
  unknown_of-All known [] h = tt
  unknown_of-All known (d ∷ ds) h = ground (arith, unknown_of-All known ds)

  check_deps-Knows :
      (known : List String) (ns : List N)
      → check_deps id_of deps_of known ns ≡ ok tt
      → Knows known ns
  unfolding check_deps
  check_deps-Knows known [] h = tt
  check_deps-Knows known (n ∷ ns) h =
      elim (Option-cases (unknown_of id_of deps_of known (deps_of n))) [
        | inl e ↦ (unknown_of-All known (deps_of n) e, check_deps-Knows known ns (ground arith))
        | inr (d, e) ↦ absurd (ground arith)
      ]

  -- What `validateDag` promises.
  pub record IsDag (ns : List N) : Type 0 where
    pub distinct : Distinct ns
    pub known : Knows (ids id_of deps_of ns) ns
    pub grounded :
        (id : String)
        → includes id (ids id_of deps_of ns) ≡ true
        → Grounded (deps_at id_of deps_of ns) id

  detect_cycle-Grounds :
      (ns : List N)
      → GroundsAll (deps_at id_of deps_of ns) (ids id_of deps_of ns) (detect_cycle id_of deps_of ns)
  unfolding detect_cycle
  detect_cycle-Grounds ns =
      visit_all-Grounds (deps_at id_of deps_of ns)
        (visit (deps_at id_of deps_of ns) (suc (length ns)))
        (visit-Grounds (deps_at id_of deps_of ns) (suc (length ns))) (ids id_of deps_of ns) []
        (unfold AllGrounded get in (λ id e. absurd (ground arith)))

  Passes : List N → Type 0
  Passes ns =
      (length (id_set id_of deps_of ns) ≡ length ns)
      × (check_deps id_of deps_of (ids id_of deps_of ns) ns ≡ ok tt)
      × (m : Marks) × (detect_cycle id_of deps_of ns ≡ some (false, m))

  validate_dag-Passes : (ns : List N) → validate_dag id_of deps_of ns ≡ ok tt → Passes ns
  unfolding validate_dag acyclic_or_fail Passes
  validate_dag-Passes ns h = elim (Visit-cases (detect_cycle id_of deps_of ns)) [
    | inl e ↦ absurd (ground arith)
    | inr (inl (m, e)) ↦ absurd (ground arith)
    | inr (inr (m, e)) ↦ (ground arith, ground arith, m, e)
  ]

  -- A graph that passes has distinct ids and only known dependencies, and from none of its nodes
  -- does an infinite chain of dependencies start.
  pub validate_dag-IsDag : (ns : List N) → validate_dag id_of deps_of ns ≡ ok tt → IsDag ns
  unfolding Passes
  validate_dag-IsDag ns h =
      let (same, checked, m, clear) = validate_dag-Passes ns h in
      record {
        distinct = id_set-Distinct ns same;
        known = check_deps-Knows (ids id_of deps_of ns) ns checked;
        grounded = (rw clear at (detect_cycle-Grounds ns)).0;
      }
