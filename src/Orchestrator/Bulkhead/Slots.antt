-- ===== src/Orchestrator/Bulkhead/Slots.antt =====
-- What the counts of the limiter mean: the slots that are held.
use chat_ai.Base.{
  ℕ, ◌+◌, ◌-◌, ◌≡◌, refl, sym, subst, ◌∙◌, String, true, false, List, [], ◌∷◌, ◌++◌, Option, none,
  some, ◌⊎◌, inl, inr, get_or, truthy, if◌then◌else◌, arith, str_eq, eq_iff, eq_refl, Bool-cases,
  includes, ap,
}
use chat_ai.Base.Maps.{Map, get, add, remove, get-set}
use chat_ai.Orchestrator.Types.{BulkheadLimits}
use chat_ai.Orchestrator.Bulkhead.{
  BulkheadSlot, ConcurrencyLimiter, new_limiter, count, bump, drop, refuses, admit, try_acquire,
  release,
}

abbrev pub ids : List BulkheadSlot → List String
ids [] = []
ids (s ∷ ss) = s.id ∷ ids ss

abbrev is_key : Option String → String → ℕ
is_key none k = 0
is_key (some j) k = if str_eq j k then 1 else 0

-- How many of the slots name the agent (or tenant, or tool) `k`, as `field` reads it.
abbrev pub uses : (BulkheadSlot → Option String) → String → List BulkheadSlot → ℕ
uses field k [] = 0
uses field k (s ∷ ss) = is_key (truthy (field s)) k + uses field k ss

abbrev pub without : String → List BulkheadSlot → List BulkheadSlot
without k [] = []
without k (s ∷ ss) = let rest = without k ss in if str_eq s.id k then rest else s ∷ rest

abbrev pub IsHeld : BulkheadSlot → List BulkheadSlot → Type 0
IsHeld s [] = ⊥
IsHeld s (t ∷ ts) = (t ≡ s) ⊎ IsHeld s ts

abbrev Distinct : List BulkheadSlot → Type 0
Distinct [] = Unit {0}
Distinct (s ∷ ss) = (includes s.id (ids ss) ≡ false) × Distinct ss

-- A client that acquires slots under ids that it does not hold, and releases slots that it holds.
pub data Session : ConcurrencyLimiter → List BulkheadSlot → Type 0 where
  start : (limits : BulkheadLimits) → Session (new_limiter limits) []
  acquired :
      {l : ConcurrencyLimiter} {held : List BulkheadSlot} (s : BulkheadSlot)
      → Session l held
      → includes s.id (ids held) ≡ false
      → refuses l s ≡ false
      → Session (try_acquire l s).0 (held ++ s ∷ [])
  released :
      {l : ConcurrencyLimiter} {held : List BulkheadSlot} (s : BulkheadSlot)
      → Session l held
      → IsHeld s held
      → Session (release l s) (without s.id held)

without_absent :
    (k : String) (held : List BulkheadSlot) → includes k (ids held) ≡ false → without k held ≡ held
without_absent k [] h = refl
without_absent k (s ∷ ss) h = ground (arith, without_absent k ss)

included :
    (s : BulkheadSlot) (held : List BulkheadSlot) → IsHeld s held → includes s.id (ids held) ≡ true
included s [] h = absurd h
included s (t ∷ ts) (inl e) = rw (e, eq_refl s.id) refl
included s (t ∷ ts) (inr h) = ground (arith, included s ts h)

other_id :
    (s t : BulkheadSlot) (held : List BulkheadSlot)
    → includes t.id (ids held) ≡ false
    → IsHeld s held
    → str_eq t.id s.id ≡ false
other_id s t held absent h = elim (Bool-cases (str_eq t.id s.id)) [
  | inl same ↦ absurd (
      ground
        (arith, ap (λ k. includes k (ids held)) ((eq_iff t.id s.id).0 same), included s held h))
  | inr other ↦ other
]

uses-without_head :
    (f : BulkheadSlot → Option String) (k : String) (t : BulkheadSlot) (ts : List BulkheadSlot)
    → includes t.id (ids ts) ≡ false
    → uses f k (t ∷ ts) ≡ uses f k (without t.id (t ∷ ts)) + is_key (truthy (f t)) k
uses-without_head f k t ts d = rw (eq_refl t.id, without_absent t.id ts d) (omega arith)

uses-without :
    (f : BulkheadSlot → Option String) (k : String) (s : BulkheadSlot) (held : List BulkheadSlot)
    → Distinct held
    → IsHeld s held
    → uses f k held ≡ uses f k (without s.id held) + is_key (truthy (f s)) k
uses-without f k s [] d h = absurd h
uses-without f k s (t ∷ ts) d (inl e) =
    subst (λ u. uses f k (t ∷ ts) ≡ uses f k (without u.id (t ∷ ts)) + is_key (truthy (f u)) k) e
      (uses-without_head f k t ts d.0)
uses-without f k s (t ∷ ts) d (inr h) =
    rw (other_id s t ts d.0 h) (omega (arith, uses-without f k s ts d.1 h))

uses-append :
    (f : BulkheadSlot → Option String) (k : String) (s : BulkheadSlot) (held : List BulkheadSlot)
    → uses f k (held ++ s ∷ []) ≡ uses f k held + is_key (truthy (f s)) k
uses-append f k s [] = omega arith
uses-append f k s (t ∷ ts) = omega (arith, uses-append f k s ts)

ids-append :
    (s : BulkheadSlot) (held : List BulkheadSlot) → ids (held ++ s ∷ []) ≡ ids held ++ s.id ∷ []
ids-append s [] = refl
ids-append s (t ∷ ts) = ap (◌∷◌ t.id) (ids-append s ts)

ids-without : (k : String) (held : List BulkheadSlot) → ids (without k held) ≡ remove k (ids held)
unfolding remove
ids-without k [] = refl
ids-without k (t ∷ ts) = ground (arith, ids-without k ts)

includes-append :
    (k : String) (s : BulkheadSlot) (held : List BulkheadSlot)
    → includes k (ids held) ≡ false
    → str_eq s.id k ≡ false
    → includes k (ids (held ++ s ∷ [])) ≡ false
includes-append k s [] h e = ground arith
includes-append k s (t ∷ ts) h e = ground (arith, includes-append k s ts)

str_eq_flip : (s t : String) → str_eq s t ≡ false → str_eq t s ≡ false
str_eq_flip s t h = ground (arith, eq_iff s t, eq_iff t s)

Distinct-append :
    (s : BulkheadSlot) (held : List BulkheadSlot)
    → Distinct held
    → includes s.id (ids held) ≡ false
    → Distinct (held ++ s ∷ [])
Distinct-append s [] d h = (refl, tt)
Distinct-append s (t ∷ ts) d h = (
  includes-append t.id s ts d.0 (str_eq_flip t.id s.id (ground arith)),
  Distinct-append s ts d.1 (ground arith),
)

includes-without :
    (j k : String) (held : List BulkheadSlot)
    → includes j (ids held) ≡ false
    → includes j (ids (without k held)) ≡ false
includes-without j k [] h = refl
includes-without j k (t ∷ ts) h = ground (arith, includes-without j k ts)

Distinct-without :
    (k : String) (held : List BulkheadSlot) → Distinct held → Distinct (without k held)
Distinct-without k [] d = tt
Distinct-without k (t ∷ ts) d = elim (Bool-cases (str_eq t.id k)) [
  | inl e ↦ rw e (Distinct-without k ts d.1)
  | inr e ↦ rw e (includes-without t.id k ts d.0, Distinct-without k ts d.1)
]

count-bump :
    (o : Option String) (k : String) (m : Map ℕ) → count (bump o m) k ≡ count m k + is_key o k
unfolding bump
count-bump none k m = omega arith
count-bump (some j) k m = ground (arith, get-set j k (count m j + 1) m, eq_iff j k)

count-drop :
    (o : Option String) (k : String) (m : Map ℕ) → count (drop o m) k ≡ count m k - is_key o k
unfolding drop
count-drop none k m = omega arith
count-drop (some j) k m = ground (arith, get-set j k (get_or (get j m) 1 - 1) m, eq_iff j k)

abbrev Counts : (BulkheadSlot → Option String) → Map ℕ → List BulkheadSlot → Type 0
Counts f m held = (k : String) → count m k ≡ uses f k held

Counts-append :
    (f : BulkheadSlot → Option String) (m : Map ℕ) (s : BulkheadSlot) (held : List BulkheadSlot)
    → Counts f m held
    → Counts f (bump (truthy (f s)) m) (held ++ s ∷ [])
Counts-append f m s held c k =
    count-bump (truthy (f s)) k m ∙ omega (arith, c k, uses-append f k s held)

Counts-without :
    (f : BulkheadSlot → Option String) (m : Map ℕ) (s : BulkheadSlot) (held : List BulkheadSlot)
    → Distinct held
    → IsHeld s held
    → Counts f m held
    → Counts f (drop (truthy (f s)) m) (without s.id held)
Counts-without f m s held d h c k =
    count-drop (truthy (f s)) k m ∙ omega (arith, c k, uses-without f k s held d h)

-- The limiter's state is that of the held slots.
pub record Tracks (l : ConcurrencyLimiter) (held : List BulkheadSlot) : Type 0 where
  pub running : l.running ≡ ids held
  pub agents : (k : String) → count l.by_agent k ≡ uses (λ s. s.agent_id) k held
  pub tenants : (k : String) → count l.by_tenant k ≡ uses (λ s. s.tenant_id) k held
  pub tools : (k : String) → count l.by_tool k ≡ uses (λ s. s.tool_id) k held

Session-Distinct :
    {l : ConcurrencyLimiter} {held : List BulkheadSlot} → Session l held → Distinct held
Session-Distinct (start limits) = tt
Session-Distinct (acquired {held = h} s r fresh room) =
    Distinct-append s h (Session-Distinct r) fresh
Session-Distinct (released {held = h} s r m) = Distinct-without s.id h (Session-Distinct r)

admit-Tracks :
    (l : ConcurrencyLimiter) (held : List BulkheadSlot) (s : BulkheadSlot)
    → includes s.id (ids held) ≡ false
    → Tracks l held
    → Tracks (admit l s) (held ++ s ∷ [])
unfolding admit add
admit-Tracks l held s fresh t = record {
  running = rw (t.running, fresh) (sym (ids-append s held));
  agents = Counts-append (λ u. u.agent_id) l.by_agent s held t.agents;
  tenants = Counts-append (λ u. u.tenant_id) l.by_tenant s held t.tenants;
  tools = Counts-append (λ u. u.tool_id) l.by_tool s held t.tools;
}

release-Tracks :
    (l : ConcurrencyLimiter) (held : List BulkheadSlot) (s : BulkheadSlot)
    → Distinct held
    → IsHeld s held
    → Tracks l held
    → Tracks (release l s) (without s.id held)
unfolding release
release-Tracks l held s d h t = record {
  running = rw t.running (sym (ids-without s.id held));
  agents = Counts-without (λ u. u.agent_id) l.by_agent s held d h t.agents;
  tenants = Counts-without (λ u. u.tenant_id) l.by_tenant s held d h t.tenants;
  tools = Counts-without (λ u. u.tool_id) l.by_tool s held d h t.tools;
}

new_limiter-Tracks : (limits : BulkheadLimits) → Tracks (new_limiter limits) []
unfolding new_limiter get
new_limiter-Tracks limits = record {
  running = refl;
  agents = λ k. refl;
  tenants = λ k. refl;
  tools = λ k. refl;
}

-- For a client that acquires under ids that it does not hold and releases only what it holds, the
-- limiter's running set is the ids of the held slots, and each count is the number of held slots
-- that name that agent, tenant or tool (the empty name counting as none).
pub Session-Tracks :
    {l : ConcurrencyLimiter} {held : List BulkheadSlot} → Session l held → Tracks l held
unfolding try_acquire
Session-Tracks (start limits) = new_limiter-Tracks limits
Session-Tracks (acquired {l = m} {held = h} s r fresh room) =
    rw room (admit-Tracks m h s fresh (Session-Tracks r))
Session-Tracks (released {l = m} {held = h} s r held_s) =
    release-Tracks m h s (Session-Distinct r) held_s (Session-Tracks r)
