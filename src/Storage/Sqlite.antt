-- ===== src/Storage/Sqlite.antt =====
-- storage/store/src/sqlite-stores.ts: the event store on SQLite. The database is a parameter, with
-- the statements that the store runs; so are `JSON.stringify` and `JSON.parse`, and the type of
-- the texts that they write and read.
use chat_ai.Base.{
  ℕ, String, List, [], ◌∷◌, ◌++◌, Option, none, some, Result, ok, err, ◌>>=◌, ◌≡◌, ◌<◌, All,
}
use chat_ai.Orchestrator.Types.{EvidenceRef}
use chat_ai.Orchestrator.Json.{Json}
use chat_ai.Ledger.{ActorType, LedgerEvent}

-- `EventRow`. The column of the actor's type holds one of its four texts.
pub record EventRow (T : Type 0) : Type 0 where
  pub seq : ℕ
  pub id : String
  pub kind : String
  pub task_id : String
  pub run_id : String
  pub actor_type : ActorType
  pub actor_id : String
  pub payload : T
  pub evidence : Option T
  pub prev_hash : Option String
  pub hash : String
  pub timestamp : String

-- `JSON.stringify` and `JSON.parse`, at a payload and at a list of references.
pub record JsonText (T : Type 0) : Type 0 where
  pub print : Json → T
  pub parse : T → Option Json
  pub print_evidence : List EvidenceRef → T
  pub parse_evidence : T → Option (List EvidenceRef)
  pub parsed : (j : Json) → parse (print j) ≡ some j
  pub parsed_evidence : (es : List EvidenceRef) → parse_evidence (print_evidence es) ≡ some es

-- The statements on the table `events`, and what SQLite documents of them. `saved` is what a
-- rollback goes back to.
pub record Database (T DB : Type 0) : Type 0 where
  pub begin : DB → Result String DB
  pub insert : EventRow T → DB → Result String DB
  pub commit : DB → Result String DB
  pub rollback : DB → DB
  pub rows : DB → List (EventRow T)
  pub saved : DB → List (EventRow T)
  pub begin_rows : (d e : DB) → begin d ≡ ok e → rows e ≡ rows d
  pub begin_saved : (d e : DB) → begin d ≡ ok e → saved e ≡ rows d
  pub insert_rows :
      (r : EventRow T) (d e : DB)
      → insert r d ≡ ok e
      → All (λ (q : EventRow T). q.seq < r.seq) (rows d)
      → rows e ≡ rows d ++ r ∷ []
  pub insert_saved : (r : EventRow T) (d e : DB) → insert r d ≡ ok e → saved e ≡ saved d
  pub commit_rows : (d e : DB) → commit d ≡ ok e → rows e ≡ rows d
  pub rollback_rows : (d : DB) → rows (rollback d) ≡ saved d

module _ {T : Type 0} (json : JsonText T) where
  unfoldable pub parse_optional : Option T → Result String (Option (List EvidenceRef))
  parse_optional none = ok none
  parse_optional (some text) = elim (json.parse_evidence text) [
    | none ↦ err "SyntaxError"
    | some es ↦ ok (some es)
  ]

  unfoldable pub parse_payload : T → Result String Json
  parse_payload text = elim (json.parse text) [ none ↦ err "SyntaxError" | some j ↦ ok j ]

  -- `rowToEvent`.
  unfoldable pub row_to_event : EventRow T → Result String LedgerEvent
  row_to_event r = do
    payload ← parse_payload r.payload
    evidence ← parse_optional r.evidence
    ok record {
      id = r.id;
      seq = r.seq;
      timestamp = r.timestamp;
      draft = record {
        actor = record { kind = r.actor_type; id = r.actor_id };
        kind = r.kind;
        task_id = r.task_id;
        run_id = r.run_id;
        payload = payload;
        evidence = evidence;
      };
      prev_hash = r.prev_hash;
      hash = r.hash;
    }

  unfoldable pub rows_to_events : List (EventRow T) → Result String (List LedgerEvent)
  rows_to_events [] = ok []
  rows_to_events (r ∷ rows) = do e ← row_to_event r; es ← rows_to_events rows; ok (e ∷ es)

  unfoldable pub print_optional : Option (List EvidenceRef) → Option T
  print_optional none = none
  print_optional (some es) = some (json.print_evidence es)

  -- The values that `append` gives to the statement.
  unfoldable pub event_to_row : LedgerEvent → EventRow T
  event_to_row e = record {
    seq = e.seq;
    id = e.id;
    kind = e.draft.kind;
    task_id = e.draft.task_id;
    run_id = e.draft.run_id;
    actor_type = e.draft.actor.kind;
    actor_id = e.draft.actor.id;
    payload = json.print e.draft.payload;
    evidence = print_optional e.draft.evidence;
    prev_hash = e.prev_hash;
    hash = e.hash;
    timestamp = e.timestamp;
  }

  module _ {DB : Type 0} (db : Database T DB) where
    -- The loop of `append`: the database that it leaves, and the error that ended it.
    unfoldable pub insert_all : List LedgerEvent → DB → DB × Option String
    insert_all [] d = (d, none)
    insert_all (e ∷ es) d = elim (db.insert (event_to_row e) d) [
      | err message ↦ (d, some message)
      | ok next ↦ insert_all es next
    ]

    unfoldable pub finish : DB × Option String → DB × Option String
    finish (d, some message) = (db.rollback d, some message)
    finish (d, none) = elim (db.commit d) [
      | err message ↦ (db.rollback d, some message)
      | ok next ↦ (next, none)
    ]

    -- `SqliteEventStore.append`: what throws before the `try` is not rolled back.
    unfoldable pub sqlite_append : List LedgerEvent → DB → DB × Option String
    unfolding insert_all finish
    sqlite_append events d = elim (db.begin d) [
      | err message ↦ (d, some message)
      | ok started ↦ finish (insert_all events started)
    ]

    -- `SqliteEventStore.all`.
    unfoldable pub sqlite_all : DB → Result String (List LedgerEvent)
    sqlite_all d = rows_to_events (db.rows d)
