-- ===== src/Tests/Tables.antt =====
-- Tables of state machines at concrete events, and a ledger of one event.
use chat_ai.Base.{◌⊎◌, String, true, List, [], ◌∷◌, none, ok, ◌≡◌, ◌≢◌, ◌↔◌, refl, map}
use chat_ai.Transition.Traces.{run, Visits}
use chat_ai.Transition
use chat_ai.Orchestrator.Types.{NodeStatus, planned, ready, verifying}
use chat_ai.Orchestrator.NodeMachine.{
  NodeEvent, prepare, start, verify, complete, node_state_machine, is_terminal, IsDead,
  completed-Visits, terminal-IsDead_iff,
}
use chat_ai.Orchestrator.Json.{Json, null, str}
use chat_ai.Ledger.{
  Draft, LedgerEvent, system, valid, verify_chain, verify_from, event_hash, append,
}
use chat_ai.Ledger.Chain.{
  payload_text, hashes, Collides, append-valid, same_hashes-payloads, relabelled-verify_chain,
}

abbrev way : List NodeEvent
way = prepare ∷ start ∷ verify ∷ complete ∷ []

way_run : run node_state_machine planned way ≡ ok NodeStatus.completed
unfolding run node_state_machine Transition.transition
way_run = refl

completed-Visits_example :
    Visits node_state_machine ready planned way × Visits node_state_machine verifying planned way
completed-Visits_example = completed-Visits way way_run

terminal-IsDead_iff_example :
    ((is_terminal NodeStatus.failed ≡ true) × (NodeStatus.failed ≢ NodeStatus.failed))
    ↔ IsDead NodeStatus.failed
terminal-IsDead_iff_example = terminal-IsDead_iff NodeStatus.failed

-- A digest that tells texts apart: the text itself.
abbrev digest : String → String
digest s = s

abbrev draft : Draft
draft = record {
  actor = record { kind = system; id = "kernel" };
  kind = "RunCreated";
  task_id = "task";
  run_id = "run";
  payload = null;
  evidence = none;
}

abbrev first : List LedgerEvent
first = (append digest "1" "now" draft []).1

empty_valid : verify_chain digest [] ≡ valid
unfolding verify_chain verify_from
empty_valid = refl

append-valid_example : verify_chain digest (append digest "1" "now" draft []).1 ≡ valid
append-valid_example = append-valid digest "1" "now" draft [] empty_valid

-- A digest that tells no texts apart, and a ledger with another payload.
abbrev weak : String → String
weak s = "0"

abbrev weakly : Json → List LedgerEvent
weakly payload = (append weak "1" "now" (record draft { payload = payload }) []).1

weakly_valid : (payload : Json) → verify_chain weak (weakly payload) ≡ valid
unfolding verify_chain verify_from
weakly_valid payload = append-valid weak "1" "now" (record draft { payload = payload }) [] refl

hashes-weakly : hashes weak (weakly null) ≡ hashes weak (weakly (str "paid"))
unfolding hashes append event_hash
hashes-weakly = refl

same_hashes-payloads_example :
    (map payload_text (weakly null) ≡ map payload_text (weakly (str "paid")))
    ⊎ Collides weak none (weakly null) (weakly (str "paid"))
same_hashes-payloads_example =
    same_hashes-payloads weak (weakly null) (weakly (str "paid")) (weakly_valid null)
      (weakly_valid (str "paid")) hashes-weakly

-- The actor of an event is replaced.
abbrev disguised : LedgerEvent → LedgerEvent
disguised ev = record ev { draft = record draft { payload = ev.draft.payload } }

relabelled-verify_chain_example :
    verify_chain digest (map disguised first) ≡ verify_chain digest first
relabelled-verify_chain_example =
    relabelled-verify_chain digest disguised first (λ ev. refl) (λ ev. refl) (λ ev. refl)
