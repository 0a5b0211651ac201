-- ===== src/Transition/Dag/Fuel.antt =====
-- The search for a cycle ends: one round of fuel more than there are nodes is enough.
use chat_ai.Base.{
  ℕ, zero, suc, ◌+◌, ◌≤◌, ◌<◌, ◌≡◌, refl, ◌≢◌, ◌⊎◌, inl, inr, String, true, false, List, [], ◌∷◌,
  Option, none, some, length, includes, arith, eq_iff, str_eq, is_some, if◌then◌else◌, Bool-cases,
  eq_refl,
}
use chat_ai.Base.Maps.{Map, get, set, get-set}
use chat_ai.Transition.Dag.{
  Mark, visiting, visited, Marks, Visit, visit, visit_all, finish, ids, deps_at, by_id_from,
  detect_cycle,
}

-- How many of the known ids bear no mark.
abbrev pub unmarked : Marks → List String → ℕ
unmarked marks [] = 0
unmarked marks (k ∷ ks) = (if is_some (get k marks) then 0 else 1) + unmarked marks ks

unmarked-set-le :
    (id : String) (v : Mark) (marks : Marks) (known : List String)
    → unmarked (set id v marks) known ≤ unmarked marks known
unmarked-set-le id v marks [] = omega arith
unmarked-set-le id v marks (k ∷ ks) =
    ground (arith, get-set id k v marks, unmarked-set-le id v marks ks)

unmarked-set-lt :
    (id : String) (v : Mark) (marks : Marks) (known : List String)
    → get id marks ≡ none
    → includes id known ≡ true
    → unmarked (set id v marks) known < unmarked marks known
unmarked-set-lt id v marks [] fresh h = absurd (ground arith)
unmarked-set-lt id v marks (k ∷ ks) fresh h = elim (Bool-cases (str_eq k id)) [
  | inl same ↦
      rw ((eq_iff k id).0 same, fresh, get-set id id v marks, eq_refl id)
        (omega (arith, unmarked-set-le id v marks ks))
  | inr other ↦
      ground (arith, get-set id k v marks, eq_iff id k, eq_iff k id, unmarked-set-lt id v marks ks)
]

pub Visit-cases :
    (v : Visit)
    → (v ≡ none) ⊎ ((m : Marks) × (v ≡ some (true, m))) ⊎ ((m : Marks) × (v ≡ some (false, m)))
Visit-cases none = inl refl
Visit-cases (some (true, m)) = inr (inl (m, refl))
Visit-cases (some (false, m)) = inr (inr (m, refl))

pub Mark-cases : (o : Option Mark) → (o ≡ none) ⊎ (o ≡ some visiting) ⊎ (o ≡ some visited)
Mark-cases none = inl refl
Mark-cases (some visiting) = inr (inl refl)
Mark-cases (some visited) = inr (inr refl)

-- The visit ends, and leaves no more ids unmarked than `n`.
abbrev pub Ends : List String → ℕ → Visit → Type 0
Ends known n none = ⊥
Ends known n (some (b, marks)) = unmarked marks known ≤ n

module _ (deps : String → List String) (known : List String) where
  Ends-le : (m n : ℕ) (v : Visit) → m ≤ n → Ends known m v → Ends known n v
  Ends-le m n none h e = e
  Ends-le m n (some (b, marks)) h e = omega arith

  visit_all-Ends :
      (f : String → Marks → Visit) (n : ℕ)
      → ((id : String) (marks : Marks)
          → unmarked marks known ≤ n
          → Ends known (unmarked marks known) (f id marks))
      → (ds : List String) (marks : Marks) → unmarked marks known ≤ n
      → Ends known (unmarked marks known) (visit_all f ds marks)
  unfolding visit_all
  visit_all-Ends f n step [] marks h = omega arith
  visit_all-Ends f n step (d ∷ ds) marks h =
      let one = step d marks h in
      elim (Visit-cases (f d marks)) [
        | inl e ↦ absurd (rw e at one)
        | inr (inl (m, e)) ↦ rw (e, visit_all) (rw e at one)
        | inr (inr (m, e)) ↦
            let le : unmarked m known ≤ unmarked marks known = rw e at one in
            rw (e, visit_all)
              (Ends-le (unmarked m known) (unmarked marks known) (visit_all f ds m) le
                (visit_all-Ends f n step ds m (omega arith)))
      ]

  finish-Ends : (id : String) (n : ℕ) (v : Visit) → Ends known n v → Ends known n (finish id v)
  unfolding finish
  finish-Ends id n none e = e
  finish-Ends id n (some (true, marks)) e = e
  finish-Ends id n (some (false, marks)) e = omega (arith, unmarked-set-le id visited marks known)

  fresh-Ends :
      (f : String → Marks → Visit) (id : String) (marks : Marks)
      → (includes id known ≡ true) ⊎ (deps id ≡ [])
      → (includes id known ≡ true
          → (i : String) (m : Marks) → unmarked m known ≤ unmarked (set id visiting marks) known
          → Ends known (unmarked m known) (f i m))
      → Ends known
          (unmarked marks known)
          (finish id (visit_all f (deps id) (set id visiting marks)))
  fresh-Ends f id marks (inl k) step =
      let marked = set id visiting marks in
      finish-Ends id (unmarked marks known) _ (
        Ends-le (unmarked marked known) (unmarked marks known) _
          (unmarked-set-le id visiting marks known)
          (visit_all-Ends f (unmarked marked known) (step k) (deps id) marked (omega arith)))
  fresh-Ends f id marks (inr no_deps) step = rw no_deps (
      unfold visit_all finish in
      (omega (
        arith,
        unmarked-set-le id visiting marks known,
        unmarked-set-le id visited (set id visiting marks) known,
      )))

  -- A visit ends when its fuel is more than the number of unmarked ids; an id that is not known
  -- has no dependencies.
  pub visit-Ends :
      ((id : String) → (includes id known ≡ true) ⊎ (deps id ≡ []))
      → (fuel : ℕ) (id : String) (marks : Marks) → unmarked marks known < fuel
      → Ends known (unmarked marks known) (visit deps fuel id marks)
  unfolding visit
  visit-Ends closed zero id marks h = absurd (omega arith)
  visit-Ends closed (suc fuel) id marks h = elim (Mark-cases (get id marks)) [
    | inl e ↦
        rw (e, visit)
          (fresh-Ends (visit deps fuel) id marks (closed id) λ k i m le.
            visit-Ends closed fuel i m (omega (arith, unmarked-set-lt id visiting marks known e k)))
    | inr (inl e) ↦ rw (e, visit) (omega arith)
    | inr (inr e) ↦ rw (e, visit) (omega arith)
  ]

module _ {N : Type 0} (id_of : N → String) (deps_of : N → List String) where
  by_id_from-absent :
      (id : String) (m : Map N) (ns : List N)
      → includes id (ids id_of deps_of ns) ≡ false
      → get id (by_id_from id_of deps_of m ns) ≡ get id m
  unfolding by_id_from
  by_id_from-absent id m [] h = refl
  by_id_from-absent id m (n ∷ ns) h =
      ground (arith, by_id_from-absent id (set (id_of n) n m) ns, get-set (id_of n) id n m)

  known_or_none :
      (ns : List N) (id : String)
      → (includes id (ids id_of deps_of ns) ≡ true) ⊎ (deps_at id_of deps_of ns id ≡ [])
  unfolding deps_at get
  known_or_none ns id = elim (Bool-cases (includes id (ids id_of deps_of ns))) [
    | inl k ↦ inl k
    | inr a ↦ inr (rw (by_id_from-absent id [] ns a) refl)
  ]

  unmarked-le-length :
      (marks : Marks) (ns : List N) → unmarked marks (ids id_of deps_of ns) ≤ length ns
  unmarked-le-length marks [] = omega arith
  unmarked-le-length marks (n ∷ ns) = ground (arith, unmarked-le-length marks ns)

  -- The search for a cycle does not run out of fuel.
  pub detect_cycle-ne-none : (ns : List N) → detect_cycle id_of deps_of ns ≢ none
  unfolding detect_cycle
  detect_cycle-ne-none ns e = rw e at ends
    where
      known : List String
      known = ids id_of deps_of ns

      ends : Ends known (unmarked [] known) (detect_cycle id_of deps_of ns)
      ends =
          visit_all-Ends (deps_at id_of deps_of ns) known
            (visit (deps_at id_of deps_of ns) (suc (length ns))) (length ns)
            (λ id marks le.
              visit-Ends (deps_at id_of deps_of ns) known (known_or_none ns) (suc (length ns)) id
                marks (omega arith))
            known [] (unmarked-le-length [] ns)
