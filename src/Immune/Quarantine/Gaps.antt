-- ===== src/Immune/Quarantine/Gaps.antt =====
-- Two orders of calls in which quarantine.ts does less than full quarantine.
use chat_ai.Base.{
  String, true, List, [], none, some, ok, ◌≡◌, ◌≢◌, inl, inr, arith, Option-cases, eq_refl,
}
use chat_ai.Base.Maps.{get, set, get-set}
use chat_ai.Transition
use chat_ai.Immune.Quarantine.{
  quarantined, suspicious, QuarantineRecord, Records, normal_restrictions, quarantine_machine,
  move_to, move, put_new, restrictions_after, quarantine_at, quarantine_entity, flag_at,
  flag_entity, is_quarantined, quarantined_at, restrictions_of, restrictions_at,
}

-- An entity that is first flagged and then quarantined is QUARANTINED with normal restrictions: the
-- second call moves the flagged record, and only `RECOVERED` sets the restrictions of a move.
pub flagged-unrestricted :
    (id why reason : String) (evidence : List String) (now later : String) (m : Records)
    (flagged moved : QuarantineRecord × Records)
    → get id m ≡ none
    → flag_entity id why now m ≡ ok flagged
    → quarantine_entity id reason evidence later flagged.1 ≡ ok moved
    → (is_quarantined id moved.1 ≡ true) × (restrictions_of id moved.1 ≡ normal_restrictions)
unfolding flag_entity flag_at put_new quarantine_entity quarantine_at move move_to
    restrictions_after is_quarantined quarantined_at restrictions_of restrictions_at
    Transition.transition quarantine_machine
flagged-unrestricted id why reason evidence now later m flagged moved absent f q =
    let r : QuarantineRecord = record {
      entity_id = id;
      state = suspicious;
      reason = why;
      restrictions = normal_restrictions;
      entered_at = now;
      evidence = [];
    } in
    let s : QuarantineRecord = record r {
      state = quarantined;
      reason = reason;
      evidence = evidence;
    } in
    let here : get id (set id r m) ≡ some r = ground (arith, get-set id id r m, eq_refl id) in
    let first : (r, set id r m) ≡ flagged = ground (arith, absent, f) in
    let second : (s, set id s (set id r m)) ≡ moved = ground (arith, first, here, q) in
    ground (arith, second, get-set id id s (set id r m), eq_refl id)

-- Quarantining an entity that is in quarantine throws: the table has no such step.
pub quarantine-again :
    (id reason : String) (evidence : List String) (now : String) (m : Records)
    → is_quarantined id m ≡ true
    → (out : QuarantineRecord × Records) → quarantine_entity id reason evidence now m ≢ ok out
unfolding quarantine_entity quarantine_at move move_to is_quarantined quarantined_at
    Transition.transition quarantine_machine
quarantine-again id reason evidence now m h out e = elim (Option-cases (get id m)) [
  | inl absent ↦ ground (arith, absent)
  | inr (r, there) ↦ ground (arith, there)
]
