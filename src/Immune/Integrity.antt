-- ===== src/Immune/Integrity.antt =====
-- kernel/immune/src/integrity.ts: expected hashes, and checks against those at run time.
use chat_ai.Base.{
  String, Bool, true, false, List, [], ◌∷◌, Option, none, some, ◌≡◌, refl, arith, if◌then◌else◌,
  str_eq, eq_iff, eq_refl, keep, All, All-weaken, inl, inr, Bool-cases,
}
use chat_ai.Base.Maps
use chat_ai.Base.Maps.{Map, set}

-- `IntegrityVerdict['status']`.
pub data IntegrityStatus : Type 0 where
  intact breach : IntegrityStatus

-- `IntegrityVerdict`.
pub record IntegrityVerdict : Type 0 where
  pub status : IntegrityStatus
  pub target : String
  pub expected_hash : String
  pub runtime_hash : String

-- `register`, on `expected`.
unfoldable pub register : String → String → Map String → Map String
register target hash expected = set target hash expected

abbrev verdict : Bool → String → String → String → IntegrityVerdict
verdict same target expected runtime = record {
  status = if same then intact else breach;
  target = target;
  expected_hash = expected;
  runtime_hash = runtime;
}

-- `check`.
unfoldable pub check : String → String → Map String → IntegrityVerdict
check target runtime expected = elim (Maps.get target expected) [
  | none ↦ verdict false target "(unregistered)" runtime
  | some hash ↦ verdict (str_eq hash runtime) target hash runtime
]

unfoldable pub check_entry : String → String → Option String → IntegrityVerdict
check_entry target hash none = verdict false target hash "(missing)"
check_entry target hash (some runtime) = verdict (str_eq hash runtime) target hash runtime

-- `checkAll`; `runtime[target]` is `none` where it is undefined.
unfoldable pub check_all : (String → Option String) → Map String → List IntegrityVerdict
unfolding check_entry
check_all runtime [] = []
check_all runtime ((target, hash) ∷ expected) =
    check_entry target hash (runtime target) ∷ check_all runtime expected

abbrev pub is_breach : IntegrityVerdict → Bool
is_breach v = elim v.status [ intact ↦ false | breach ↦ true ]

-- `breaches`.
unfoldable pub breaches : List IntegrityVerdict → List IntegrityVerdict
breaches verdicts = keep is_breach verdicts

-- `Object.fromEntries(...)[key]`: the last entry of a key counts.
unfoldable pub object_of : Map String → String → Option String
object_of [] key = none
object_of ((j, v) ∷ m) key = elim (object_of m key) [
  | some w ↦ some w
  | none ↦ if str_eq j key then some v else none
]

-- No key stands twice.
abbrev Unlisted : String → Map String → Type 0
Unlisted k m = All (λ (e : String × String). str_eq e.0 k ≡ false) m

abbrev pub Unique : Map String → Type 0
Unique [] = Unit
Unique ((k, v) ∷ m) = Unlisted k m × Unique m

Unlisted-set :
    (j k v : String) (m : Map String) → str_eq k j ≡ false → Unlisted j m → Unlisted j (set k v m)
unfolding set
Unlisted-set j k v [] h u = (h, tt)
Unlisted-set j k v ((i, w) ∷ m) h u = elim (Bool-cases (str_eq i k)) [
  | inl here ↦ rw (here, set) (u.0, u.1)
  | inr there ↦ rw (there, set) (u.0, Unlisted-set j k v m h u.1)
]

-- `register` keeps the targets distinct.
pub register-Unique :
    (target hash : String) (expected : Map String)
    → Unique expected
    → Unique (register target hash expected)
unfolding register set
register-Unique t h [] u = (tt, tt)
register-Unique t h ((i, w) ∷ m) u = elim (Bool-cases (str_eq i t)) [
  | inl here ↦ rw (here, set) (u.0, u.1)
  | inr there ↦
      let apart : str_eq t i ≡ false = ground (arith, there, eq_iff t i, eq_iff i t) in
      rw (there, set) (Unlisted-set i t h m apart u.0, register-Unique t h m u.1)
]

Unlisted-object : (k : String) (m : Map String) → Unlisted k m → object_of m k ≡ none
unfolding object_of
Unlisted-object k [] u = refl
Unlisted-object k ((j, v) ∷ m) u = rw (Unlisted-object k m u.1, object_of, u.0) refl

object_later :
    (j v k w : String) (m : Map String) → object_of m k ≡ some w → object_of ((j, v) ∷ m) k ≡ some w
unfolding object_of
object_later j v k w m h = rw (h, object_of) refl

own_head : (j v : String) (m : Map String) → Unlisted j m → object_of ((j, v) ∷ m) j ≡ some v
unfolding object_of
own_head j v m u = rw (Unlisted-object j m u, object_of, eq_refl j) refl

own_entries :
    (m : Map String) → Unique m → All (λ (e : String × String). object_of m e.0 ≡ some e.1) m
own_entries [] u = tt
own_entries ((j, v) ∷ m) u =
    (own_head j v m u.0, All-weaken _ _ m (λ e h. object_later j v e.0 e.1 m h) (own_entries m u.1))

no_breach :
    (runtime : String → Option String) (m : Map String)
    → All (λ (e : String × String). runtime e.0 ≡ some e.1) m
    → breaches (check_all runtime m) ≡ []
unfolding breaches check_all check_entry
no_breach runtime [] h = refl
no_breach runtime ((j, v) ∷ m) h = rw (h.0, check_entry, eq_refl v) (no_breach runtime m h.1)

-- Expected hashes that are checked against themselves have no breach.
pub own-breaches :
    (expected : Map String)
    → Unique expected
    → breaches (check_all (object_of expected) expected) ≡ []
own-breaches expected u = no_breach (object_of expected) expected (own_entries expected u)
