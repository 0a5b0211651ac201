-- ===== src/Tests/Stores.antt =====
-- A durable ledger on an event store on a database that holds two lists of rows.
use chat_ai.Base.{
  ℕ, ◌<◌, String, Bool, true, false, List, [], ◌∷◌, ◌++◌, map, Option, none, some, Result, ok, err,
  ◌≡◌, ◌≢◌, refl, sym, ap, arith, any, All, ◌==◌, if◌then◌else◌, inl, inr, Bool-cases, ok_injective,
  str_eq,
}
use chat_ai.Orchestrator.Types.{EvidenceRef}
use chat_ai.Orchestrator.Json.{Json, null, stable_stringify}
use chat_ai.Ledger
use chat_ai.Ledger.{
  ActorType, Draft, LedgerEvent, valid, verify_chain, verify_from, event_hash, hashed_text,
  canonicalize, last_hash, same_prev,
}
use chat_ai.Storage.{Rising, EventStore}
use chat_ai.Storage.Sqlite.{
  EventRow, JsonText, Database, sqlite_append, sqlite_all, insert_all, finish, event_to_row,
  print_optional, rows_to_events, row_to_event, parse_payload, parse_optional,
}
use chat_ai.Storage.SqliteLaws.{sqlite_event_store, sqlite_append-all}
use chat_ai.Storage.Durable
use chat_ai.Storage.Durable.{
  DurableLedger, Stamps, new_ledger, hydrate, flush, flush_batch, check_chain, rebuild,
}
use chat_ai.Storage.Rebuild.{stripped}
use chat_ai.Storage.Restart.{Call, add, save, start, play, play_call, saved, flush-hydrate}
use chat_ai.Storage.Lost.{lost-hydrate}
use chat_ai.Storage.Projections.{project_system}
use chat_ai.Storage.Counts.{counted, project_system-hydrate}

-- A text of a JSON column: the value that it is of.
pub data Text : Type 0 where
  of_json : Json → Text
  of_evidence : List EvidenceRef → Text

abbrev json_of : Text → Option Json
json_of (of_json j) = some j
json_of (of_evidence es) = none

abbrev evidence_of : Text → Option (List EvidenceRef)
evidence_of (of_json j) = none
evidence_of (of_evidence es) = some es

abbrev json : JsonText Text
json = record {
  print = of_json;
  parse = json_of;
  print_evidence = of_evidence;
  parse_evidence = evidence_of;
  parsed = λ j. refl;
  parsed_evidence = λ es. refl;
}

abbrev Tables : Type 0
Tables = List (EventRow Text) × List (EventRow Text)

abbrev taken : EventRow Text → List (EventRow Text) → Bool
taken r rows = any (λ q. q.seq == r.seq) rows

abbrev put : EventRow Text → Tables → Result String Tables
put r d =
    if taken r d.0 then err "UNIQUE constraint failed: events.seq" else ok (d.0 ++ r ∷ [], d.1)

put_rows :
    (r : EventRow Text) (d e : Tables)
    → put r d ≡ ok e
    → All (λ (q : EventRow Text). q.seq < r.seq) d.0
    → e.0 ≡ d.0 ++ r ∷ []
put_rows r d e h below = elim (Bool-cases (taken r d.0)) [
  | inl used ↦ ground (arith, h, used)
  | inr new ↦ ground (arith, h, new)
]

put_saved : (r : EventRow Text) (d e : Tables) → put r d ≡ ok e → e.1 ≡ d.1
put_saved r d e h = elim (Bool-cases (taken r d.0)) [
  | inl used ↦ ground (arith, h, used)
  | inr new ↦ ground (arith, h, new)
]

abbrev database : Database Text Tables
database = record {
  begin = λ d. ok (d.0, d.0);
  insert = put;
  commit = λ d. ok d;
  rollback = λ d. (d.1, d.1);
  rows = λ d. d.0;
  saved = λ d. d.1;
  begin_rows = λ d e h. ap (λ (p : Tables). p.0) (sym (ok_injective _ e h));
  begin_saved = λ d e h. ap (λ (p : Tables). p.1) (sym (ok_injective _ e h));
  insert_rows = put_rows;
  insert_saved = put_saved;
  commit_rows = λ d e h. ap (λ (p : Tables). p.0) (sym (ok_injective d e h));
  rollback_rows = λ d. refl;
}

abbrev store : EventStore Tables
store = sqlite_event_store json database

abbrev digest : String → String
digest s = s

abbrev stamps : Stamps
stamps = record { id = λ n. "again"; timestamp = λ n. "later" }

abbrev draft : String → Draft
draft kind = record {
  actor = record { kind = ActorType.system; id = "kernel" };
  kind = kind;
  task_id = "task";
  run_id = "run";
  payload = null;
  evidence = none;
}

abbrev history : List Call
history =
    add "1" "now" (draft "RunCreated")
    ∷ save
    ∷ start stamps
    ∷ add "2" "now" (draft "TaskCompleted")
    ∷ []

abbrev or_new : Result String (DurableLedger × Tables) → DurableLedger × Tables
or_new r = elim r [ ok p ↦ p | err why ↦ (new_ledger, ([], [])) ]

abbrev played : DurableLedger × Tables
played = or_new (play digest store history new_ledger ([], []))

played_ok : play digest store history new_ledger ([], []) ≡ ok played
unfolding play play_call saved flush flush_batch hydrate check_chain rebuild new_ledger
    Durable.append Ledger.append last_hash event_hash hashed_text canonicalize stable_stringify
    verify_chain verify_from same_prev sqlite_event_store sqlite_append sqlite_all insert_all finish
    event_to_row print_optional rows_to_events row_to_event parse_payload parse_optional
played_ok = refl

abbrev flushed : DurableLedger × Tables × Option String
flushed = flush digest store played.0 played.1

empty_store : store.all ([], []) ≡ ok []
unfolding sqlite_event_store sqlite_all rows_to_events
empty_store = refl

flushed_ok : flush digest store played.0 played.1 ≡ (flushed.0, flushed.1, none)
unfolding play play_call saved flush flush_batch hydrate check_chain rebuild new_ledger
    Durable.append Ledger.append last_hash event_hash hashed_text canonicalize stable_stringify
    verify_chain verify_from same_prev sqlite_event_store sqlite_append sqlite_all insert_all finish
    event_to_row print_optional rows_to_events row_to_event parse_payload parse_optional
flushed_ok = refl

flush-hydrate_example :
    ((n : DurableLedger) × (hydrate digest store stamps played.1 ≡ ok n))
    × ((n : DurableLedger) × (hydrate digest store stamps flushed.1 ≡ ok n)
        × (map stripped n.events ≡ map stripped played.0.events)
        × (n.pending ≡ []))
flush-hydrate_example =
    flush-hydrate digest store history played.0 flushed.0 ([], []) played.1 flushed.1 stamps
      empty_store played_ok flushed_ok

abbrev started : DurableLedger
started = elim (hydrate digest store stamps flushed.1) [ ok l ↦ l | err why ↦ new_ledger ]

started_ok : hydrate digest store stamps flushed.1 ≡ ok started
unfolding play play_call saved flush flush_batch hydrate check_chain rebuild new_ledger
    Durable.append Ledger.append last_hash event_hash hashed_text canonicalize stable_stringify
    verify_chain verify_from same_prev sqlite_event_store sqlite_append sqlite_all insert_all finish
    event_to_row print_optional rows_to_events row_to_event parse_payload parse_optional
started_ok = refl

project_system-hydrate_example : project_system started.events ≡ counted played.0.events
project_system-hydrate_example =
    project_system-hydrate digest store history played.0 flushed.0 started ([], []) played.1
      flushed.1 stamps empty_store played_ok flushed_ok started_ok

abbrev event_at : ℕ → String → String → LedgerEvent
event_at seq kind hash = record {
  id = "id";
  seq = seq;
  timestamp = "now";
  draft = draft kind;
  prev_hash = none;
  hash = hash;
}

abbrev one_row : Tables
one_row = (event_to_row json (event_at 0 "RunCreated" "h0") ∷ [], [])

one_read : sqlite_all json database one_row ≡ ok (event_at 0 "RunCreated" "h0" ∷ [])
unfolding sqlite_all rows_to_events row_to_event parse_payload parse_optional event_to_row
    print_optional
one_read = refl

abbrev two_rows : Tables
two_rows = (sqlite_append json database (event_at 1 "TaskCreated" "h1" ∷ []) one_row).0

two_written :
    sqlite_append json database (event_at 1 "TaskCreated" "h1" ∷ []) one_row ≡ (two_rows, none)
unfolding sqlite_append insert_all finish event_to_row print_optional
two_written = refl

sqlite_append-all_example :
    sqlite_all json database two_rows
    ≡ ok (event_at 0 "RunCreated" "h0" ∷ event_at 1 "TaskCreated" "h1" ∷ [])
sqlite_append-all_example =
    sqlite_append-all json database (event_at 1 "TaskCreated" "h1" ∷ [])
      (event_at 0 "RunCreated" "h0" ∷ []) one_row two_rows one_read (omega arith, (omega arith, tt))
      two_written

-- A store that throws on the events of failed tasks.
abbrev is_failed : List LedgerEvent → Bool
is_failed events = any (λ ev. str_eq ev.draft.kind "TaskFailed") events

abbrev flaky_append : List LedgerEvent → List LedgerEvent → List LedgerEvent × Option String
flaky_append events s = if is_failed events then (s, some "disk full") else (s ++ events, none)

flaky_appended :
    (events stored s t : List LedgerEvent)
    → ◌≡◌ {A = Result String (List LedgerEvent)} (ok s) (ok stored)
    → Rising 0 (stored ++ events)
    → flaky_append events s ≡ (t, none)
    → ◌≡◌ {A = Result String (List LedgerEvent)} (ok t) (ok (stored ++ events))
flaky_appended events stored s t r g h = elim (Bool-cases (is_failed events)) [
  | inl bad ↦ ground (arith, h, bad)
  | inr good ↦ ground (arith, h, good, r)
]

flaky_refused :
    (events : List LedgerEvent) (message : String) (s t : List LedgerEvent)
    → flaky_append events s ≡ (t, some message)
    → ◌≡◌ {A = Result String (List LedgerEvent)} (ok t) (ok s)
flaky_refused events message s t h = elim (Bool-cases (is_failed events)) [
  | inl bad ↦ ground (arith, h, bad)
  | inr good ↦ ground (arith, h, good)
]

abbrev flaky : EventStore (List LedgerEvent)
flaky = record {
  append = flaky_append;
  all = λ s. ok s;
  appended = flaky_appended;
  refused = flaky_refused;
}

-- A ledger whose last event cannot be stored.
abbrev unlucky : List Call
unlucky = add "1" "now" (draft "RunCreated") ∷ save ∷ add "2" "now" (draft "TaskFailed") ∷ []

abbrev or_empty :
    Result String (DurableLedger × List LedgerEvent) → DurableLedger × List LedgerEvent
or_empty r = elim r [ ok p ↦ p | err why ↦ (new_ledger, []) ]

abbrev unsaved : DurableLedger × List LedgerEvent
unsaved = or_empty (play digest flaky unlucky new_ledger [])

unsaved_played : play digest flaky unlucky new_ledger [] ≡ ok unsaved
unfolding play play_call saved flush flush_batch new_ledger Durable.append Ledger.append last_hash
    event_hash hashed_text canonicalize stable_stringify
unsaved_played = refl

abbrev thrown : DurableLedger × List LedgerEvent × Option String
thrown = flush digest flaky unsaved.0 unsaved.1

unsaved_thrown : flush digest flaky unsaved.0 unsaved.1 ≡ (thrown.0, thrown.1, some "disk full")
unfolding play play_call saved flush flush_batch new_ledger Durable.append Ledger.append last_hash
    event_hash hashed_text canonicalize stable_stringify
unsaved_thrown = refl

abbrev resumed : DurableLedger × List LedgerEvent × Option String
resumed =
    flush digest flaky (Durable.append digest "3" "now" (draft "TaskCreated") thrown.0).1 thrown.1

resumed_ok :
    flush digest flaky (Durable.append digest "3" "now" (draft "TaskCreated") thrown.0).1 thrown.1
    ≡ (resumed.0, resumed.1, none)
unfolding play play_call saved flush flush_batch new_ledger Durable.append Ledger.append last_hash
    event_hash hashed_text canonicalize stable_stringify
resumed_ok = refl

is_text : Option String → String → Bool
is_text none t = false
is_text (some s) t = str_eq s t

abbrev stored_hash : String
stored_hash = event_hash digest null none

text_of_stored : is_text (last_hash digest none unsaved.1) stored_hash ≡ true
unfolding play play_call saved flush flush_batch new_ledger Durable.append Ledger.append last_hash
    event_hash hashed_text canonicalize stable_stringify is_text
text_of_stored = refl

text_of_ledger : is_text (last_hash digest none unsaved.0.events) stored_hash ≡ false
unfolding play play_call saved flush flush_batch new_ledger Durable.append Ledger.append last_hash
    event_hash hashed_text canonicalize stable_stringify is_text
text_of_ledger = refl

hashes_differ : last_hash digest none unsaved.0.events ≢ last_hash digest none unsaved.1
hashes_differ e =
    let same = ap (λ (o : Option String). is_text o stored_hash) e in
    ground (arith, same, text_of_stored, text_of_ledger)

lost-hydrate_example : (message : String) × (hydrate digest flaky stamps resumed.1 ≡ err message)
lost-hydrate_example =
    lost-hydrate digest flaky unlucky unsaved.0 thrown.0 resumed.0 [] unsaved.1 thrown.1 resumed.1
      unsaved.1 "disk full" "3" "now" (draft "TaskCreated") stamps refl unsaved_played refl
      hashes_differ unsaved_thrown resumed_ok
