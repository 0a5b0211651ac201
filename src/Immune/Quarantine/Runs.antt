-- ===== src/Immune/Quarantine/Runs.antt =====
-- Sequences of calls on the store of quarantined entities.
use chat_ai.Base.{
  String, List, [], ◌∷◌, some, Result, ok, err, ◌>>=◌, ◌≡◌, refl, subst, inl, inr, arith, str_eq,
  eq_iff, Bool-cases, Option-cases,
}
use chat_ai.Base.Maps.{get, set, get-set}
use chat_ai.Transition.{IllegalTransition}
use chat_ai.Immune.Quarantine.{
  QuarantineState, revoked, QuarantineEvent, flag, quarantine, analyze, recover, revoke,
  quarantine_machine, QuarantineRecord, Records, Outcome, move_to, move, put_new, quarantine_at,
  quarantine_entity, flag_at, flag_entity, must_at, must, analyze_entity, recover_entity,
  revoke_entity,
}
use chat_ai.Immune.Quarantine.Ways.{
  Request, to_quarantine, to_flag, to_analyze, to_recover, to_revoke, left, answer, step, state_at,
  event_of, next_state, IsKeyed, step-state_at,
}

-- What a call answers: nothing, or the record of its entity and a store with keys in place.
record IsSound (id : String) (o : Outcome) : Type 0 where
  pub sound :
      (out : QuarantineRecord × Records) → o ≡ ok out → ((out.0).entity_id ≡ id) × IsKeyed out.1

set-IsKeyed :
    (id : String) (r : QuarantineRecord) (m : Records)
    → r.entity_id ≡ id
    → IsKeyed m
    → IsKeyed (set id r m)
set-IsKeyed id r m e k = record {
  at = λ j s g. elim (Bool-cases (str_eq id j)) [
    | inl same ↦ ground (arith, get-set id j r m, eq_iff id j)
    | inr other ↦ k.at j s (ground (arith, get-set id j r m))
  ];
}

ok-IsSound :
    (id : String) (r : QuarantineRecord) (m : Records)
    → r.entity_id ≡ id
    → IsKeyed m
    → IsSound id (ok (r, set id r m))
ok-IsSound id r m e k = record {
  sound = λ out h.
      let p : (r, set id r m) ≡ out = cc in
      subst (λ o. ((o.0).entity_id ≡ id) × IsKeyed o.1) p (e, set-IsKeyed id r m e k);
}

move_to-IsSound :
    (id : String) (r : QuarantineRecord) (reason : String) (evidence : List String) (m : Records)
    (next : Result (IllegalTransition QuarantineState QuarantineEvent) QuarantineState)
    → r.entity_id ≡ id
    → IsKeyed m
    → IsSound id (move_to r reason evidence m next)
unfolding move_to
move_to-IsSound id r reason evidence m (err e) same k = record { sound = λ out h. cc }
move_to-IsSound id r reason evidence m (ok s) same k =
    subst (λ i. IsSound i (move_to r reason evidence m (ok s))) same
      (ok-IsSound r.entity_id _ m refl k)

must-IsSound :
    (id : String) (event : QuarantineEvent) (m : Records) → IsKeyed m → IsSound id (must id event m)
unfolding must must_at move
must-IsSound id event m k = elim (Option-cases (get id m)) [
  | inl e ↦ rw (e, must_at) (record { sound = λ out h. cc })
  | inr (r, e) ↦ rw (e, must_at) (move_to-IsSound id r _ _ m _ (k.at id r e) k)
]

rewritten-IsSound :
    (id : String) (o : Outcome) (f g : QuarantineRecord → QuarantineRecord)
    → IsSound id o
    → ((r : QuarantineRecord) → (f r).entity_id ≡ r.entity_id)
    → ((r : QuarantineRecord) → (g r).entity_id ≡ r.entity_id)
    → IsSound id (o >>= λ out. ok (f out.0, set id (g out.0) out.1))
rewritten-IsSound id (err e) f g s sf sg = record { sound = λ out h. cc }
rewritten-IsSound id (ok (r, n)) f g s sf sg =
    let (same, k) = s.sound (r, n) refl in
    record {
      sound = λ out h.
          let p : (f r, set id (g r) n) ≡ out = cc in
          subst (λ o. ((o.0).entity_id ≡ id) × IsKeyed o.1) p
            (rw (sf r) same, set-IsKeyed id (g r) n (rw (sg r) same) k);
    }

answer-IsSound : (id : String) (q : Request) (m : Records) → IsKeyed m → IsSound id (answer id q m)
unfolding answer quarantine_entity quarantine_at flag_entity flag_at put_new analyze_entity
    recover_entity revoke_entity move
answer-IsSound id (to_quarantine reason evidence now) m k = elim (Option-cases (get id m)) [
  | inl e ↦ rw (e, quarantine_at) (ok-IsSound id _ m refl k)
  | inr (r, e) ↦ rw (e, quarantine_at) (move_to-IsSound id r _ _ m _ (k.at id r e) k)
]
answer-IsSound id (to_flag reason now) m k = elim (Option-cases (get id m)) [
  | inl e ↦ rw (e, flag_at) (ok-IsSound id _ m refl k)
  | inr (r, e) ↦ rw (e, flag_at) (move_to-IsSound id r _ _ m _ (k.at id r e) k)
]
answer-IsSound id to_analyze m k = must-IsSound id analyze m k
answer-IsSound id (to_recover remark) m k =
    rewritten-IsSound id (must id recover m) _ _ (must-IsSound id recover m k) (λ r. refl)
      (λ r. refl)
answer-IsSound id (to_revoke reason) m k =
    rewritten-IsSound id (must id revoke m) _ _ (must-IsSound id revoke m k) (λ r. refl) (λ r. refl)

left-IsKeyed :
    (id : String) (m : Records) (o : Outcome) → IsSound id o → IsKeyed m → IsKeyed (left m o)
left-IsKeyed id m (err e) s k = k
left-IsKeyed id m (ok out) s k = (s.sound out refl).1

pub step-IsKeyed : (id : String) (q : Request) (m : Records) → IsKeyed m → IsKeyed (step id q m)
unfolding step
step-IsKeyed id q m k = left-IsKeyed id m (answer id q m) (answer-IsSound id q m k) k

-- Calls, each with the entity it names, one after another.
unfoldable pub steps : List (String × Request) → Records → Records
steps [] m = m
steps ((id, q) ∷ qs) m = steps qs (step id q m)

revoked_stays : (event : QuarantineEvent) → next_state event (some revoked) ≡ some revoked
unfolding next_state quarantine_machine
revoked_stays quarantine = refl
revoked_stays flag = refl
revoked_stays analyze = refl
revoked_stays recover = refl
revoked_stays revoke = refl

-- No sequence of calls, on whatever entities, changes the state of a REVOKED entity.
pub revoked-steps :
    (id : String) (qs : List (String × Request)) (m : Records)
    → IsKeyed m
    → state_at id m ≡ some revoked
    → state_at id (steps qs m) ≡ some revoked
unfolding steps
revoked-steps id [] m k h = h
revoked-steps id ((j, q) ∷ qs) m k h =
    revoked-steps id qs (step j q m) (step-IsKeyed j q m k)
      (ground (arith, step-state_at j id q m k, eq_iff j id, revoked_stays (event_of q)))
