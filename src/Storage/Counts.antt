-- ===== src/Storage/Counts.antt =====
-- The views count the events of their types, and are the same after a start.
use chat_ai.Base.{
  ℕ, ◌+◌, String, List, [], ◌∷◌, map, ok, ok_injective, none, ◌≡◌, refl, sym, ◌∙◌, ap, arith,
  if◌then◌else◌, str_eq, eq_iff,
}
use chat_ai.Ledger.{LedgerEvent}
use chat_ai.Storage.{EventStore}
use chat_ai.Storage.Durable.{DurableLedger, Stamps, new_ledger, hydrate, flush}
use chat_ai.Storage.Rebuild.{stripped}
use chat_ai.Storage.Restart.{Call, play, flush-hydrate}
use chat_ai.Storage.Projections.{
  fold, RunProjection, ApprovalProjection, UsageProjection, initial_run, initial_approval,
  initial_usage, run_reducer, approval_reducer, usage_reducer, project_system, SystemProjection,
}

abbrev pub here : String → LedgerEvent → ℕ
here kind e = if str_eq e.draft.kind kind then 1 else 0

-- The number of events of a type.
abbrev pub count : String → List LedgerEvent → ℕ
count kind [] = 0
count kind (e ∷ es) = here kind e + count kind es

run_reducer-step :
    (s : RunProjection) (e : LedgerEvent)
    → ((run_reducer s e).runs ≡ s.runs + here "RunCreated" e)
      × ((run_reducer s e).completed ≡ s.completed + here "TaskCompleted" e)
      × ((run_reducer s e).failed ≡ s.failed + here "TaskFailed" e)
      × ((run_reducer s e).blocked ≡ s.blocked + here "ImmuneBlocked" e)
unfolding run_reducer
run_reducer-step s e = ground (
  arith,
  eq_iff e.draft.kind "RunCreated",
  eq_iff e.draft.kind "TaskCompleted",
  eq_iff e.draft.kind "TaskFailed",
  eq_iff e.draft.kind "ImmuneBlocked",
  eq_iff "RunCreated" "TaskCompleted",
  eq_iff "RunCreated" "TaskFailed",
  eq_iff "RunCreated" "ImmuneBlocked",
  eq_iff "TaskCompleted" "TaskFailed",
  eq_iff "TaskCompleted" "ImmuneBlocked",
  eq_iff "TaskFailed" "ImmuneBlocked",
)

fold-run_reducer :
    (es : List LedgerEvent) (s : RunProjection)
    → ((fold es run_reducer s).runs ≡ s.runs + count "RunCreated" es)
      × ((fold es run_reducer s).completed ≡ s.completed + count "TaskCompleted" es)
      × ((fold es run_reducer s).failed ≡ s.failed + count "TaskFailed" es)
      × ((fold es run_reducer s).blocked ≡ s.blocked + count "ImmuneBlocked" es)
unfolding fold
fold-run_reducer [] s = (omega arith, omega arith, omega arith, omega arith)
fold-run_reducer (e ∷ es) s =
    let step = run_reducer-step s e in
    let later = fold-run_reducer es (run_reducer s e) in
    (
      omega (arith, later.0, step.0),
      omega (arith, later.1, step.1),
      omega (arith, later.2, step.2),
      omega (arith, later.3, step.3),
    )

approval_reducer-step :
    (s : ApprovalProjection) (e : LedgerEvent)
    → ((approval_reducer s e).required ≡ s.required + here "ApprovalRequired" e)
      × ((approval_reducer s e).granted ≡ s.granted + here "ApprovalGranted" e)
      × ((approval_reducer s e).denied ≡ s.denied + here "ApprovalDenied" e)
unfolding approval_reducer
approval_reducer-step s e = ground (
  arith,
  eq_iff e.draft.kind "ApprovalRequired",
  eq_iff e.draft.kind "ApprovalGranted",
  eq_iff e.draft.kind "ApprovalDenied",
  eq_iff "ApprovalRequired" "ApprovalGranted",
  eq_iff "ApprovalRequired" "ApprovalDenied",
  eq_iff "ApprovalGranted" "ApprovalDenied",
)

fold-approval_reducer :
    (es : List LedgerEvent) (s : ApprovalProjection)
    → ((fold es approval_reducer s).required ≡ s.required + count "ApprovalRequired" es)
      × ((fold es approval_reducer s).granted ≡ s.granted + count "ApprovalGranted" es)
      × ((fold es approval_reducer s).denied ≡ s.denied + count "ApprovalDenied" es)
unfolding fold
fold-approval_reducer [] s = (omega arith, omega arith, omega arith)
fold-approval_reducer (e ∷ es) s =
    let step = approval_reducer-step s e in
    let later = fold-approval_reducer es (approval_reducer s e) in
    (omega (arith, later.0, step.0), omega (arith, later.1, step.1), omega (arith, later.2, step.2))

usage_reducer-step :
    (s : UsageProjection) (e : LedgerEvent)
    → ((usage_reducer s e).runs ≡ s.runs + here "RunCreated" e)
      × ((usage_reducer s e).model_calls ≡ s.model_calls + here "PlanGenerated" e)
      × ((usage_reducer s e).tool_calls ≡ s.tool_calls + here "execution.completed" e)
unfolding usage_reducer
usage_reducer-step s e = ground (
  arith,
  eq_iff e.draft.kind "RunCreated",
  eq_iff e.draft.kind "PlanGenerated",
  eq_iff e.draft.kind "execution.completed",
  eq_iff "RunCreated" "PlanGenerated",
  eq_iff "RunCreated" "execution.completed",
  eq_iff "PlanGenerated" "execution.completed",
)

fold-usage_reducer :
    (es : List LedgerEvent) (s : UsageProjection)
    → ((fold es usage_reducer s).runs ≡ s.runs + count "RunCreated" es)
      × ((fold es usage_reducer s).model_calls ≡ s.model_calls + count "PlanGenerated" es)
      × ((fold es usage_reducer s).tool_calls ≡ s.tool_calls + count "execution.completed" es)
unfolding fold
fold-usage_reducer [] s = (omega arith, omega arith, omega arith)
fold-usage_reducer (e ∷ es) s =
    let step = usage_reducer-step s e in
    let later = fold-usage_reducer es (usage_reducer s e) in
    (omega (arith, later.0, step.0), omega (arith, later.1, step.1), omega (arith, later.2, step.2))

plus_zero :
    (kind : String) (es : List LedgerEvent) {n : ℕ} → n ≡ 0 + count kind es → n ≡ count kind es
plus_zero kind es h = omega (arith, h)

-- The views that count the events of each type.
abbrev pub counted : List LedgerEvent → SystemProjection
counted es = record {
  runs = record {
    runs = count "RunCreated" es;
    completed = count "TaskCompleted" es;
    failed = count "TaskFailed" es;
    blocked = count "ImmuneBlocked" es;
  };
  approvals = record {
    required = count "ApprovalRequired" es;
    granted = count "ApprovalGranted" es;
    denied = count "ApprovalDenied" es;
  };
  usage = record {
    runs = count "RunCreated" es;
    model_calls = count "PlanGenerated" es;
    tool_calls = count "execution.completed" es;
  };
}

-- Every counter of the views of a list of events is the number of its events of one type.
pub project_system-count : (es : List LedgerEvent) → project_system es ≡ counted es
unfolding project_system initial_run initial_approval initial_usage
project_system-count es =
    let r = fold-run_reducer es initial_run in
    let a = fold-approval_reducer es initial_approval in
    let u = fold-usage_reducer es initial_usage in
    λ i. record {
      runs = record {
        runs = plus_zero "RunCreated" es r.0 i;
        completed = plus_zero "TaskCompleted" es r.1 i;
        failed = plus_zero "TaskFailed" es r.2 i;
        blocked = plus_zero "ImmuneBlocked" es r.3 i;
      };
      approvals = record {
        required = plus_zero "ApprovalRequired" es a.0 i;
        granted = plus_zero "ApprovalGranted" es a.1 i;
        denied = plus_zero "ApprovalDenied" es a.2 i;
      };
      usage = record {
        runs = plus_zero "RunCreated" es u.0 i;
        model_calls = plus_zero "PlanGenerated" es u.1 i;
        tool_calls = plus_zero "execution.completed" es u.2 i;
      };
    }

count-stripped :
    (kind : String) (es : List LedgerEvent) → count kind (map stripped es) ≡ count kind es
unfolding stripped
count-stripped kind [] = refl
count-stripped kind (e ∷ es) = ap (λ (n : ℕ). here kind e + n) (count-stripped kind es)

project_stripped : (es : List LedgerEvent) → project_system (map stripped es) ≡ project_system es
project_stripped es =
    rw (project_system-count (map stripped es), project_system-count es)
      (simp (count-stripped) refl)

module _ (sha256 : String → String) {S : Type 0} (store : EventStore S) where
  -- Where no flush threw since the store was empty, every counter of the views of the events that
  -- a start reads after a flush is the number of events of its type in the ledger that was flushed.
  pub project_system-hydrate :
      (cs : List Call) (l m n : DurableLedger) (r s t : S) (stamps : Stamps)
      → store.all r ≡ ok []
      → play sha256 store cs new_ledger r ≡ ok (l, s)
      → flush sha256 store l s ≡ (m, t, none)
      → hydrate sha256 store stamps t ≡ ok n
      → project_system n.events ≡ counted l.events
  project_system-hydrate cs l m n r s t stamps empty played flushed started =
      let (ledger, returns, same, idle) =
        (flush-hydrate sha256 store cs l m r s t stamps empty played flushed).1 in
      let read : ledger ≡ n = ok_injective ledger n (sym returns ∙ started) in
      sym (project_stripped n.events)
      ∙ ap project_system (ap (λ (x : DurableLedger). map stripped x.events) (sym read) ∙ same)
      ∙ project_stripped l.events
      ∙ project_system-count l.events
