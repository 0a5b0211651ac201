-- ===== src/Immune/Quarantine/Ways.antt =====
-- The store of quarantined entities runs one copy of the table for each entity.
use chat_ai.Base.{
  String, List, [], Option, none, some, Result, ok, err, ◌>>=◌, ◌≡◌, refl, sym, ◌∙◌, inl, inr,
  arith, if◌then◌else◌, get_or, str_eq, eq_iff, Option-cases,
}
use chat_ai.Base.Maps.{get, set, get-set}
use chat_ai.Transition
use chat_ai.Transition.{IllegalTransition}
use chat_ai.Immune.Quarantine.{
  QuarantineState, suspicious, quarantined, QuarantineEvent, flag, quarantine, analyze, recover,
  revoke, quarantine_machine, QuarantineRecord, Records, Outcome, move_to, move, put_new,
  quarantine_at, quarantine_entity, flag_at, flag_entity, must_at, must, analyze_entity,
  recover_entity, revoke_entity,
}

-- A call of a method that changes the store, with its arguments.
pub data Request : Type 0 where
  to_quarantine : String → List String → String → Request
  to_flag : String → String → Request
  to_analyze : Request
  to_recover : Option String → Request
  to_revoke : String → Request

-- What a call leaves in the store: an error changes nothing.
abbrev pub left : Records → Outcome → Records
left m (ok out) = out.1
left m (err e) = m

unfoldable pub answer : String → Request → Records → Outcome
answer id (to_quarantine reason evidence now) m = quarantine_entity id reason evidence now m
answer id (to_flag reason now) m = flag_entity id reason now m
answer id to_analyze m = analyze_entity id m
answer id (to_recover remark) m = recover_entity id remark m
answer id (to_revoke reason) m = revoke_entity id reason m

unfoldable pub step : String → Request → Records → Records
unfolding answer
step id q m = left m (answer id q m)

-- The state that the store has of an entity.
abbrev pub state_of : Option QuarantineRecord → Option QuarantineState
state_of none = none
state_of (some r) = some r.state

abbrev pub state_at : String → Records → Option QuarantineState
state_at id m = state_of (get id m)

abbrev pub event_of : Request → QuarantineEvent
event_of (to_quarantine reason evidence now) = quarantine
event_of (to_flag reason now) = flag
event_of to_analyze = analyze
event_of (to_recover remark) = recover
event_of (to_revoke reason) = revoke

-- The table of one entity; an entity that the store lacks enters by a flag or by quarantine.
unfoldable pub next_state : QuarantineEvent → Option QuarantineState → Option QuarantineState
unfolding quarantine_machine
next_state quarantine none = some quarantined
next_state flag none = some suspicious
next_state _ none = none
next_state event (some s) = some (get_or (quarantine_machine.transitions s event) s)

-- Every record stands under its entity's id.
pub record IsKeyed (m : Records) : Type 0 where
  pub at : (id : String) (r : QuarantineRecord) → get id m ≡ some r → r.entity_id ≡ id

state-set :
    (id j : String) (r : QuarantineRecord) (m : Records)
    → state_at j (set id r m) ≡ (if str_eq id j then some r.state else state_at j m)
state-set id j r m = ground (arith, get-set id j r m)

state-here :
    (id j : String) (m : Records)
    → state_at j m ≡ (if str_eq id j then state_at id m else state_at j m)
state-here id j m = ground (arith, eq_iff id j)

move-state :
    (id j : String) (r : QuarantineRecord) (event : QuarantineEvent) (reason : String)
    (evidence : List String) (m : Records)
    → get id m ≡ some r
    → r.entity_id ≡ id
    → state_at j (left m (move r event reason evidence m))
      ≡ (if str_eq id j then next_state event (some r.state) else state_at j m)
unfolding move move_to Transition.transition next_state
move-state id j r event reason evidence m g k =
    elim (Option-cases (quarantine_machine.transitions r.state event)) [
      | inl e ↦ rw (e, Transition.transition, move_to) (state-here id j m ∙ rw (g) refl)
      | inr (s, e) ↦ rw (e, Transition.transition, move_to, k) (state-set id j _ m)
    ]

-- A record that is written once more under its id, with the same state.
rewritten-state :
    (id j : String) (m : Records) (o : Outcome) (f : QuarantineRecord → QuarantineRecord)
    (g : QuarantineRecord → QuarantineRecord)
    → ((r : QuarantineRecord) → (g r).state ≡ r.state)
    → ((out : QuarantineRecord × Records) → o ≡ ok out → state_at id out.1 ≡ some (out.0).state)
    → state_at j (left m (o >>= λ out. ok (f out.0, set id (g out.0) out.1)))
      ≡ state_at j (left m o)
rewritten-state id j m (err e) f g same out = refl
rewritten-state id j m (ok (r, n)) f g same out =
    state-set id j (g r) n ∙ rw (same r, ← out (r, n) refl) (sym (state-here id j n))

move_to-answer :
    (id : String) (r : QuarantineRecord) (reason : String) (evidence : List String) (m : Records)
    (next : Result (IllegalTransition QuarantineState QuarantineEvent) QuarantineState)
    (out : QuarantineRecord × Records)
    → r.entity_id ≡ id
    → move_to r reason evidence m next ≡ ok out
    → state_at id out.1 ≡ some (out.0).state
unfolding move_to
move_to-answer id r reason evidence m (err e) out k h = cc
move_to-answer id r reason evidence m (ok s) out k h =
    ground (arith, get-set r.entity_id id (out.0) m, eq_iff r.entity_id id)

must-answer :
    (id : String) (event : QuarantineEvent) (m : Records) (out : QuarantineRecord × Records)
    → IsKeyed m
    → must id event m ≡ ok out
    → state_at id out.1 ≡ some (out.0).state
unfolding must must_at move
must-answer id event m out k h = elim (Option-cases (get id m)) [
  | inl e ↦ ground (arith, e)
  | inr (r, e) ↦
      move_to-answer id r r.reason r.evidence m
        (Transition.transition quarantine_machine r.state event) out (k.at id r e)
        (ground (arith, e))
]

must-state :
    (id j : String) (event : QuarantineEvent) (m : Records)
    → IsKeyed m
    → next_state event none ≡ none
    → state_at j (left m (must id event m))
      ≡ (if str_eq id j then next_state event (state_at id m) else state_at j m)
unfolding must must_at
must-state id j event m k stays = elim (Option-cases (get id m)) [
  | inl e ↦ rw (e, must_at, stays) (state-here id j m ∙ rw (e) refl)
  | inr (r, e) ↦ rw (e, must_at) (move-state id j r event r.reason r.evidence m e (k.at id r e))
]

-- Every call acts on the entity that it names as one step of the table, and on no other: a call
-- that throws leaves the state as it is.
pub step-state_at :
    (id j : String) (q : Request) (m : Records)
    → IsKeyed m
    → state_at j (step id q m)
      ≡ (if str_eq id j then next_state (event_of q) (state_at id m) else state_at j m)
unfolding step answer quarantine_entity quarantine_at flag_entity flag_at put_new next_state
    analyze_entity recover_entity revoke_entity
step-state_at id j (to_quarantine reason evidence now) m k = elim (Option-cases (get id m)) [
  | inl e ↦ rw (e, quarantine_at) (state-set id j _ m)
  | inr (r, e) ↦
      rw (e, quarantine_at) (move-state id j r quarantine reason evidence m e (k.at id r e))
]
step-state_at id j (to_flag reason now) m k = elim (Option-cases (get id m)) [
  | inl e ↦ rw (e, flag_at) (state-set id j _ m)
  | inr (r, e) ↦ rw (e, flag_at) (move-state id j r flag reason [] m e (k.at id r e))
]
step-state_at id j to_analyze m k = must-state id j analyze m k refl
step-state_at id j (to_recover remark) m k =
    rewritten-state id j m (must id recover m) _ _ (λ r. refl)
      (λ out h. must-answer id recover m out k h)
    ∙ must-state id j recover m k refl
step-state_at id j (to_revoke reason) m k =
    rewritten-state id j m (must id revoke m) _ _ (λ r. refl)
      (λ out h. must-answer id revoke m out k h)
    ∙ must-state id j revoke m k refl
