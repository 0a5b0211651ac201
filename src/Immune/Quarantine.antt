-- ===== src/Immune/Quarantine.antt =====
-- kernel/immune/src/quarantine.ts. `now` is the text of the clock's answer at the call.
pub mod Ways
pub mod Runs
pub mod Gaps
use chat_ai.Base.{
  String, Bool, true, false, List, [], ◌∷◌, Option, none, some, Result, ok, err, ◌>>=◌, ◌<>◌,
  if◌then◌else◌, truthy,
}
use chat_ai.Base.Maps
use chat_ai.Base.Maps.{Map}
use chat_ai.Transition
use chat_ai.Transition.{StateMachine, IllegalTransition}

-- `QuarantineState`.
pub data QuarantineState : Type 0 where
  active suspicious quarantined analysis recovered revoked : QuarantineState

-- The events of `QUARANTINE_MACHINE`.
pub data QuarantineEvent : Type 0 where
  flag quarantine analyze recover revoke : QuarantineEvent

-- `QUARANTINE_MACHINE`.
unfoldable pub quarantine_machine : StateMachine QuarantineState QuarantineEvent
quarantine_machine = record {
  transitions = λ from event. elim from [
    | active ↦ elim event [ flag ↦ some suspicious | _ ↦ none ]
    | suspicious ↦ elim event [ quarantine ↦ some quarantined | _ ↦ none ]
    | quarantined ↦ elim event [ analyze ↦ some analysis | _ ↦ none ]
    | analysis ↦ elim event [ recover ↦ some recovered | revoke ↦ some revoked | _ ↦ none ]
    | _ ↦ none
  ];
}

-- The values of the fields of `QuarantineRestrictions`.
pub data Access : Type 0 where
  readonly blocked allowlist credentials_revoked disabled normal : Access

-- `QuarantineRestrictions`.
pub record Restrictions : Type 0 where
  pub filesystem : Access
  pub network : Access
  pub credentials : Access
  pub new_processes : Access
  pub plugin : Access

-- `FULL_QUARANTINE`.
abbrev pub full_quarantine : Restrictions
full_quarantine = record {
  filesystem = readonly;
  network = blocked;
  credentials = credentials_revoked;
  new_processes = blocked;
  plugin = disabled;
}

-- `NORMAL_RESTRICTIONS`.
abbrev pub normal_restrictions : Restrictions
normal_restrictions = record {
  filesystem = normal;
  network = normal;
  credentials = normal;
  new_processes = normal;
  plugin = normal;
}

-- `QuarantineRecord`.
pub record QuarantineRecord : Type 0 where
  pub entity_id : String
  pub state : QuarantineState
  pub reason : String
  pub restrictions : Restrictions
  pub entered_at : String
  pub evidence : List String

pub data QuarantineError : Type 0 where
  illegal : IllegalTransition QuarantineState QuarantineEvent → QuarantineError
  unknown_entity : String → QuarantineError

-- `records`, and what a call answers and leaves.
abbrev pub Records : Type 0
Records = Map QuarantineRecord

abbrev pub Outcome : Type 0
Outcome = Result QuarantineError (QuarantineRecord × Records)

unfoldable pub restrictions_after : QuarantineState → Restrictions → Restrictions
restrictions_after recovered r = normal_restrictions
restrictions_after _ r = r

unfoldable pub move_to :
    QuarantineRecord
    → String
    → List String
    → Records
    → Result (IllegalTransition QuarantineState QuarantineEvent) QuarantineState
    → Outcome
unfolding restrictions_after
move_to current reason evidence m (err e) = err (illegal e)
move_to current reason evidence m (ok next) =
    let moved : QuarantineRecord = record current {
      state = next;
      reason = reason;
      evidence = evidence;
      restrictions = restrictions_after next current.restrictions;
    } in
    ok (moved, Maps.set current.entity_id moved m)

-- The private method `transition`.
unfoldable pub move : QuarantineRecord → QuarantineEvent → String → List String → Records → Outcome
unfolding move_to
move current event reason evidence m =
    move_to current reason evidence m (Transition.transition quarantine_machine current.state event)

unfoldable pub put_new : QuarantineRecord → Records → Outcome
put_new r m = ok (r, Maps.set r.entity_id r m)

unfoldable pub quarantine_at :
    Option QuarantineRecord → String → String → List String → String → Records → Outcome
unfolding put_new
quarantine_at (some r) id reason evidence now m = move r quarantine reason evidence m
quarantine_at none id reason evidence now m =
    put_new
      (record {
        entity_id = id;
        state = quarantined;
        reason = reason;
        restrictions = full_quarantine;
        entered_at = now;
        evidence = evidence;
      })
      m

-- `quarantine`.
unfoldable pub quarantine_entity : String → String → List String → String → Records → Outcome
unfolding quarantine_at
quarantine_entity id reason evidence now m = quarantine_at (Maps.get id m) id reason evidence now m

unfoldable pub flag_at : Option QuarantineRecord → String → String → String → Records → Outcome
unfolding put_new
flag_at (some r) id reason now m = move r flag reason [] m
flag_at none id reason now m =
    put_new
      (record {
        entity_id = id;
        state = suspicious;
        reason = reason;
        restrictions = normal_restrictions;
        entered_at = now;
        evidence = [];
      })
      m

-- `flag`.
unfoldable pub flag_entity : String → String → String → Records → Outcome
unfolding flag_at
flag_entity id reason now m = flag_at (Maps.get id m) id reason now m

unfoldable pub must_at : Option QuarantineRecord → String → QuarantineEvent → Records → Outcome
must_at none id event m = err (unknown_entity id)
must_at (some r) id event m = move r event r.reason r.evidence m

-- `must`.
unfoldable pub must : String → QuarantineEvent → Records → Outcome
unfolding must_at
must id event m = must_at (Maps.get id m) id event m

-- `analyze`.
unfoldable pub analyze_entity : String → Records → Outcome
analyze_entity id m = must id analyze m

noted : Option String → String → String
noted none reason = reason
noted (some note) reason = reason <> " — recovered: " <> note

-- `recover`; the store gets a copy with normal restrictions, and the caller the record.
unfoldable pub recover_entity : String → Option String → Records → Outcome
unfolding noted
recover_entity id note m = must id recover m >>= λ out.
    let r : QuarantineRecord = record (out.0) { reason = noted (truthy note) out.0.reason } in
    ok (r, Maps.set id (record r { restrictions = normal_restrictions }) out.1)

-- `revoke`.
unfoldable pub revoke_entity : String → String → Records → Outcome
revoke_entity id reason m = must id revoke m >>= λ out.
    let r : QuarantineRecord = record (out.0) { reason = reason } in ok (r, Maps.set id r out.1)

unfoldable pub quarantined_at : Option QuarantineRecord → Bool
quarantined_at none = false
quarantined_at (some r) = elim r.state [ quarantined ↦ true | analysis ↦ true | _ ↦ false ]

-- `isQuarantined`.
unfoldable pub is_quarantined : String → Records → Bool
unfolding quarantined_at
is_quarantined id m = quarantined_at (Maps.get id m)

unfoldable pub restrictions_at : Option QuarantineRecord → Restrictions
restrictions_at none = normal_restrictions
restrictions_at (some r) = r.restrictions

-- `restrictionsOf`.
unfoldable pub restrictions_of : String → Records → Restrictions
unfolding restrictions_at
restrictions_of id m = restrictions_at (Maps.get id m)
