-- ===== src/Storage/SqliteLaws.antt =====
-- The event store on SQLite fulfils the contract.
use mathlib.Core.List.{append-nil, append_assoc}
use chat_ai.Base.{
  ℕ, suc, ◌<◌, ◌≤◌, String, List, [], ◌∷◌, ◌++◌, Option, none, some, ok, err, ◌≡◌, refl, sym, ◌∙◌,
  ap, subst, arith, inl, inr, All, returns_bind, ok_injective, Result-cases,
}
use chat_ai.Orchestrator.Types.{EvidenceRef}
use chat_ai.Ledger.{LedgerEvent}
use chat_ai.Storage.{Rising, EventStore}
use chat_ai.Storage.Sqlite.{
  EventRow, JsonText, Database, parse_payload, parse_optional, row_to_event, rows_to_events,
  print_optional, event_to_row, insert_all, finish, sqlite_append, sqlite_all,
}

Rising-le :
    (es more : List LedgerEvent) (e : LedgerEvent) (n : ℕ) → Rising n (es ++ e ∷ more) → n ≤ e.seq
Rising-le [] more e n h = h.0
Rising-le (x ∷ xs) more e n h =
    let later = Rising-le xs more e (suc x.seq) h.1 in omega (arith, h.0)

module _ {T : Type 0} (json : JsonText T) where
  payload_parsed :
      (e : LedgerEvent) → parse_payload json (json.print e.draft.payload) ≡ ok e.draft.payload
  unfolding parse_payload
  payload_parsed e = rw (json.parsed e.draft.payload, parse_payload) refl

  optional_parsed :
      (o : Option (List EvidenceRef)) → parse_optional json (print_optional json o) ≡ ok o
  unfolding parse_optional print_optional
  optional_parsed none = refl
  optional_parsed (some es) = rw (json.parsed_evidence es) refl

  -- A row gives back the event that it was written from.
  pub row_to_event-event_to_row : (e : LedgerEvent) → row_to_event json (event_to_row json e) ≡ ok e
  unfolding row_to_event event_to_row
  row_to_event-event_to_row e = rw (payload_parsed e, optional_parsed e.draft.evidence) refl

  seq_kept : (r : EventRow T) (e : LedgerEvent) → row_to_event json r ≡ ok e → e.seq ≡ r.seq
  unfolding row_to_event
  seq_kept r e h =
      let (p, parsed, rest) = returns_bind (parse_payload json r.payload) _ e h in
      let (o, there, made) = returns_bind (parse_optional json r.evidence) _ e rest in
      ground (arith, made)

  rows_append :
      (rows : List (EventRow T)) (es : List LedgerEvent) (e : LedgerEvent)
      → rows_to_events json rows ≡ ok es
      → rows_to_events json (rows ++ event_to_row json e ∷ []) ≡ ok (es ++ e ∷ [])
  unfolding rows_to_events
  rows_append [] es e h = rw (row_to_event-event_to_row e) (rw (← ok_injective [] es h) refl)
  rows_append (r ∷ rows) es e h =
      let (f, head, rest) = returns_bind (row_to_event json r) _ es h in
      let (fs, tail, made) = returns_bind (rows_to_events json rows) _ es rest in
      rw (head, rows_append rows fs e tail) (rw (← ok_injective (f ∷ fs) es made) refl)

  -- The rows of events with rising numbers are numbered below a later event.
  rows_below :
      (rows : List (EventRow T)) (es more : List LedgerEvent) (e : LedgerEvent) (n : ℕ)
      → rows_to_events json rows ≡ ok es
      → Rising n (es ++ e ∷ more)
      → All (λ (q : EventRow T). q.seq < (event_to_row json e).seq) rows
  unfolding rows_to_events event_to_row
  rows_below [] es more e n h g = tt
  rows_below (r ∷ rows) es more e n h g =
      let (f, head, rest) = returns_bind (row_to_event json r) _ es h in
      let (fs, tail, made) = returns_bind (rows_to_events json rows) _ es rest in
      let whole : f ∷ fs ≡ es = ok_injective (f ∷ fs) es made in
      let rising : Rising n ((f ∷ fs) ++ e ∷ more) =
        subst (λ xs. Rising n (xs ++ e ∷ more)) (sym whole) g in
      let above = Rising-le fs more e (suc f.seq) rising.1 in
      (omega (arith, seq_kept r f head, above), rows_below rows fs more e (suc f.seq) tail rising.1)

  module _ {DB : Type 0} (db : Database T DB) where
    insert_all-saved :
        (es : List LedgerEvent) (d : DB) → db.saved (insert_all json db es d).0 ≡ db.saved d
    unfolding insert_all
    insert_all-saved [] d = refl
    insert_all-saved (e ∷ es) d = elim (Result-cases (db.insert (event_to_row json e) d)) [
      | inl (next, h) ↦
          rw (h, insert_all)
            (insert_all-saved es next ∙ db.insert_saved (event_to_row json e) d next h)
      | inr (message, h) ↦ rw (h, insert_all) refl
    ]

    finish_committed :
        (d next : DB) → db.commit d ≡ ok next → finish json db (d, none) ≡ (next, none)
    unfolding finish
    finish_committed d next e = rw (e, finish) refl

    finish_blocked :
        (d : DB) (why : String)
        → db.commit d ≡ err why
        → finish json db (d, none) ≡ (db.rollback d, some why)
    unfolding finish
    finish_blocked d why e = rw (e, finish) refl

    first_same :
        (d e : DB) (o p : Option String) → ◌≡◌ {A = DB × Option String} (d, o) (e, p) → d ≡ e
    first_same d e o p h = ap (λ (q : DB × Option String). q.0) h

    finish_refused :
        (r : DB × Option String) (message : String) (t : DB)
        → finish json db r ≡ (t, some message)
        → db.rows t ≡ db.saved r.0
    unfolding finish
    finish_refused (d, some why) message t h =
        let same : db.rollback d ≡ t = ap (λ (p : DB × Option String). p.0) h in
        rw (← same) (db.rollback_rows d)
    finish_refused (d, none) message t h = elim (Result-cases (db.commit d)) [
      | inl (next, e) ↦ ground (arith, sym (finish_committed d next e) ∙ h)
      | inr (why, e) ↦
          let same : db.rollback d ≡ t = first_same _ _ _ _ (sym (finish_blocked d why e) ∙ h) in
          rw (← same) (db.rollback_rows d)
    ]

    finish_done :
        (r : DB × Option String) (t : DB)
        → finish json db r ≡ (t, none)
        → (r.1 ≡ none) × (db.rows t ≡ db.rows r.0)
    unfolding finish
    finish_done (d, some why) t h = ground arith
    finish_done (d, none) t h = elim (Result-cases (db.commit d)) [
      | inl (next, e) ↦
          let same : next ≡ t = first_same _ _ _ _ (sym (finish_committed d next e) ∙ h) in
          (refl, rw (← same) (db.commit_rows d next e))
      | inr (why, e) ↦ ground (arith, sym (finish_blocked d why e) ∙ h)
    ]

    -- An append that throws leaves what the store returns as it was.
    pub sqlite_append-refused :
        (es : List LedgerEvent) (message : String) (d t : DB)
        → sqlite_append json db es d ≡ (t, some message)
        → sqlite_all json db t ≡ sqlite_all json db d
    unfolding sqlite_append sqlite_all finish
    sqlite_append-refused es message d t h = elim (Result-cases (db.begin d)) [
      | inr (why, f) ↦
          let stopped : sqlite_append json db es d ≡ (d, some why) = rw (f, sqlite_append) refl in
          let same : d ≡ t = first_same d t (some why) (some message) (sym stopped ∙ h) in
          rw (← same) refl
      | inl (begun, f) ↦
          let ended : finish json db (insert_all json db es begun) ≡ (t, some message) =
            sym (rw (f, sqlite_append) refl) ∙ h in
          ap (rows_to_events json) (
            finish_refused (insert_all json db es begun) message t ended
            ∙ insert_all-saved es begun
            ∙ db.begin_saved d begun f)
    ]

    insert_all-rows :
        (es stored : List LedgerEvent) (d t : DB)
        → rows_to_events json (db.rows d) ≡ ok stored
        → Rising 0 (stored ++ es)
        → insert_all json db es d ≡ (t, none)
        → rows_to_events json (db.rows t) ≡ ok (stored ++ es)
    unfolding insert_all
    insert_all-rows [] stored d t r g h =
        let same : d ≡ t = ap (λ (p : DB × Option String). p.0) h in
        rw (← same, append-nil stored) r
    insert_all-rows (e ∷ es) stored d t r g h =
        elim (Result-cases (db.insert (event_to_row json e) d)) [
          | inr (why, f) ↦ ground (arith, f)
          | inl (next, f) ↦
              let more : insert_all json db es next ≡ (t, none) =
                sym (rw (f, insert_all) refl) ∙ h in
              let grown =
                db.insert_rows (event_to_row json e) d next f
                  (rows_below (db.rows d) stored es e 0 r g) in
              let read : rows_to_events json (db.rows next) ≡ ok (stored ++ e ∷ []) =
                rw grown (rows_append (db.rows d) stored e r) in
              rw (← append_assoc stored (e ∷ []) es) (
                insert_all-rows es (stored ++ e ∷ []) next t read
                  (rw (append_assoc stored (e ∷ []) es) g) more)
        ]

    -- Where a database reads as some events, and an append returns of events whose numbers go on
    -- rising, the database that it leaves reads as the same events followed by the new ones.
    pub sqlite_append-all :
        (es stored : List LedgerEvent) (d t : DB)
        → sqlite_all json db d ≡ ok stored
        → Rising 0 (stored ++ es)
        → sqlite_append json db es d ≡ (t, none)
        → sqlite_all json db t ≡ ok (stored ++ es)
    unfolding sqlite_append sqlite_all
    sqlite_append-all es stored d t r g h = elim (Result-cases (db.begin d)) [
      | inr (why, f) ↦ ground (arith, f)
      | inl (begun, f) ↦
          let result = insert_all json db es begun in
          let ended : finish json db result ≡ (t, none) = sym (rw (f, sqlite_append) refl) ∙ h in
          let (done, same) = finish_done result t ended in
          ap (rows_to_events json) same
          ∙ insert_all-rows es stored begun result.0 (rw (db.begin_rows d begun f) r) g
              (λ i. (result.0, done i))
    ]

  -- The store on SQLite fulfils the contract of an event store: an append that returns adds its
  -- events, where their numbers rise above those stored, and one that throws adds nothing.
  unfoldable pub sqlite_event_store : {DB : Type 0} (db : Database T DB) → EventStore DB
  sqlite_event_store db = record {
    append = sqlite_append json db;
    all = sqlite_all json db;
    appended = sqlite_append-all db;
    refused = sqlite_append-refused db;
  }
