-- ===== src/Transition/Dag.antt =====
-- kernel/transition/src/dag.ts, which runtime/orchestrator/src/dag.ts repeats for its own nodes:
-- any type of nodes with an id and dependencies.
pub mod Fuel
pub mod Sound
use chat_ai.Base.{
  ℕ, zero, suc, ◌+◌, String, Bool, true, false, not, List, [], ◌∷◌, ◌++◌, Option, none, some,
  Result, ok, err, ◌>>=◌, ◌==◌, if◌then◌else◌, length, includes, all, any, keep,
}
use chat_ai.Base.Maps.{Map, get, set, add}

pub data DagError : Type 0 where
  duplicate_ids : DagError
  unknown_dep : String → String → DagError
  cycle : DagError
  unreachable : DagError
  out_of_fuel : DagError

pub data Mark : Type 0 where
  visiting visited : Mark

abbrev pub Marks : Type 0
Marks = Map Mark

-- A visit ends with its answer and the marks, or runs out of fuel.
abbrev pub Visit : Type 0
Visit = Option (Bool × Marks)

-- `for (const dep of deps) if (visit(dep)) return true;`
unfoldable pub visit_all : (String → Marks → Visit) → List String → Marks → Visit
visit_all visit [] marks = some (false, marks)
visit_all visit (dep ∷ deps) marks = elim (visit dep marks) [
  | none ↦ none
  | some (true, marks') ↦ some (true, marks')
  | some (false, marks') ↦ visit_all visit deps marks'
]

unfoldable pub finish : String → Visit → Visit
finish id none = none
finish id (some (true, marks)) = some (true, marks)
finish id (some (false, marks)) = some (false, set id visited marks)

-- The closure `visit`, over the dependencies of each id.
unfoldable pub visit : (String → List String) → ℕ → String → Marks → Visit
unfolding finish
visit deps zero id marks = none
visit deps (suc fuel) id marks = elim (get id marks) [
  | some visiting ↦ some (true, marks)
  | some visited ↦ some (false, marks)
  | none ↦ finish id (visit_all (visit deps fuel) (deps id) (set id visiting marks))
]

-- A record with what the functions read of a node.
module _ {N : Type 0} (id_of : N → String) (deps_of : N → List String) where
  abbrev pub ids : List N → List String
  ids [] = []
  ids (n ∷ ns) = id_of n ∷ ids ns

  -- `new Set(ids)`.
  unfoldable pub id_set : List N → List String
  id_set [] = []
  id_set (n ∷ ns) = let rest = id_set ns in if includes (id_of n) rest then rest else id_of n ∷ rest

  -- `new Map(nodes.map((n) => [n.id, n]))`.
  unfoldable pub by_id_from : Map N → List N → Map N
  by_id_from m [] = m
  by_id_from m (n ∷ ns) = by_id_from (set (id_of n) n m) ns

  unfoldable pub by_id : List N → Map N
  unfolding by_id_from
  by_id ns = by_id_from [] ns

  abbrev deps_or_none : Option N → List String
  deps_or_none none = []
  deps_or_none (some n) = deps_of n

  -- The dependencies that a visit of an id goes through: none, if no node has the id.
  unfoldable pub deps_at : List N → String → List String
  unfolding by_id
  deps_at ns id = deps_or_none (get id (by_id ns))

  -- `for (const n of nodes) if (visit(n.id)) return true;`
  unfoldable pub detect_cycle : List N → Visit
  detect_cycle ns = visit_all (visit (deps_at ns) (suc (length ns))) (ids ns) []

  -- The first unknown dependency of a node.
  unfoldable pub unknown_of : List String → List String → Option String
  unknown_of known [] = none
  unknown_of known (d ∷ ds) =
      let rest = unknown_of known ds in if includes d known then rest else some d

  unfoldable pub check_deps : List String → List N → Result DagError (Unit {0})
  unfolding unknown_of
  check_deps known [] = ok tt
  check_deps known (n ∷ ns) =
      let rest = check_deps known ns in
      elim (unknown_of known (deps_of n)) [ some d ↦ err (unknown_dep (id_of n) d) | none ↦ rest ]

  unfoldable pub acyclic_or_fail : Visit → Result DagError (Unit {0})
  acyclic_or_fail none = err out_of_fuel
  acyclic_or_fail (some (true, m)) = err cycle
  acyclic_or_fail (some (false, m)) = ok tt

  -- `validateDag`.
  unfoldable pub validate_dag : List N → Result DagError (Unit {0})
  unfolding check_deps acyclic_or_fail
  validate_dag ns =
      if not (length (id_set ns) == length ns)
      then err duplicate_ids
      else (check_deps (ids ns) ns >>= λ _. acyclic_or_fail (detect_cycle ns))

  -- The nodes whose dependencies are all satisfied.
  unfoldable pub layer_of : List String → List N → List N
  layer_of satisfied ns = keep (λ n. all (λ d. includes d satisfied) (deps_of n)) ns

  -- Those that are left.
  unfoldable pub rest_of : List String → List N → List N
  rest_of satisfied ns = keep (λ n. not (all (λ d. includes d satisfied) (deps_of n))) ns

  -- The `while` loop; each round takes a node away, so as many rounds as nodes are enough.
  unfoldable pub layers_from : ℕ → List String → List N → Result DagError (List (List N))
  layers_from zero satisfied [] = ok []
  layers_from zero satisfied (n ∷ ns) = err out_of_fuel
  layers_from (suc fuel) satisfied [] = ok []
  layers_from (suc fuel) satisfied (n ∷ ns) =
      let layer = layer_of satisfied (n ∷ ns) in
      let later = layers_from fuel (satisfied ++ ids layer) (rest_of satisfied (n ∷ ns)) in
      elim layer [ [] ↦ err unreachable | m ∷ ms ↦ (later >>= λ ls. ok ((m ∷ ms) ∷ ls)) ]

  -- `topologicalLayers`.
  unfoldable pub topological_layers : List N → Result DagError (List (List N))
  topological_layers ns = validate_dag ns >>= λ _. layers_from (length ns) [] ns
