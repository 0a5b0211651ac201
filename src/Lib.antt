-- ===== src/Lib.antt =====
-- The workflow orchestrator and the kernel of chat.ai.
--
-- Transition: kernel/transition/src. A state machine is a table, `StateMachine`; `transition` throws
-- where the table has no entry. Transition.Task has the tables of tasks, Transition.Dag the
-- validation of plans (`validateDag`, `detectCycle`, `topologicalLayers`). The depth-first search
-- takes one unit of fuel more than there are nodes: a call that goes down marks a node first.
--
-- Orchestrator: runtime/orchestrator/src. Types, NodeMachine, Bulkhead (`ConcurrencyLimiter`),
-- Idempotency (`InMemoryIdempotencyStore`) and Retry (retry.ts, compensation.ts, scheduler.ts) model
-- the file of that name. Executor models `DagExecutor`: its fields are the record `Exec`, a method
-- is an `Action`, a function of the state that returns or throws and leaves a state in both cases.
-- Executor.Nodes, Skips, Work, Jobs, Drive and Hydrate hold the methods. The executor calls the
-- machine of the nodes for every change of status, the idempotency store and the limiter for every
-- job, and the queue for the order of jobs.
--
-- Injected code (the handler, hooks, guard, random numbers, sha256) is the record `Env`; its answers
-- depend on the number of the call, and `cancel` may come at each such call. One worker takes one
-- job after another; parallel jobs are not interleaved. A limiter without room, or a promise that is
-- waited for by its own job, makes an action end in `waits_forever`. The rounds of `drive` have one
-- unit of fuel more than there are nodes, the attempts of a job one more than are left of
-- `maxAttempts`, the nested calls of `cascadeSkip` one more than there are nodes.
--
-- A function under a key of the idempotency store is asynchronous: one that throws before it
-- returns a promise, which its only caller does not give, is not modelled.
--
-- Policy: kernel/policy/src/policy-engine.ts, with the types of kernel/contracts/src/policy.ts. The
-- approval policy is its own keys; `requirement` also has the members that every object inherits.
-- Ledger: kernel/events/src/ledger.ts, on JSON payloads, sha256 being a parameter.
-- Immune: kernel/immune/src. Detector (detector.ts) turns an observation into detections, Risk
-- (risk-engine.ts, blast-radius.ts, policy-firewall.ts) weighs them, Gate (gate.ts) decides; Breaker,
-- Quarantine and KillSwitch model circuit-breaker.ts, quarantine.ts and kill-switch.ts. Regular
-- expressions are data, the test of one on a text is a parameter. KillSwitch asks the engine of
-- Policy. Numbers are natural; a confidence is in hundredths.
--
-- Immune.Incident, Integrity, Health, Recovery and Runtime model the files of those names.
-- `ImmuneRuntime.apply` puts a principal into quarantine, asks the kill switch and opens an incident,
-- whose phases go into the ledger; a call that throws keeps what it had written.
--
-- Economics: kernel/economics/src/index.ts, with natural amounts. Identity:
-- kernel/identity/src/identity-service.ts; ids and times are given to each operation, and the instant
-- of a date text is a parameter. Capability: kernel/capability/src/compose.ts. Execution:
-- kernel/execution/src; what an executor does is a parameter, what is emitted stands in a log.
-- Verification: plugins/verification/src/verification-engine.ts. LocalRunner and LocalRunner.Loop:
-- `run` of apps/cli/src/local-runner.ts, the composition of the guard of names, the policy, the
-- approval, the quota, the immune gate, the execution, the meter and the verification. The plan, the
-- answers of the callbacks and the checks of `onVerify` are given; one run takes place at a time, so
-- that runs that share a runner are not interleaved; billing and the flush are left out, and what the runner appends stands apart from what the immune runtime and `execute` emit.
--
-- Storage: storage/store/src. `EventStore` is the contract of contracts.ts; Sqlite models the event
-- store of sqlite-stores.ts on a database given by its statements and their documented laws, and
-- SqliteLaws fills the contract. Durable models durable-ledger.ts on any such store: it extends
-- Ledger. Projections models projections.ts.
--
-- Base holds tests, lists, maps in insertion order and results; Tests the concrete inputs, among
-- them a database and JSON texts that fulfil the laws asked for.
--
-- Not modelled: the registry of names and schemas, provenance, the other stores of sqlite-stores.ts
-- and the one on Postgres, the averages of the metrics, which need further work; the other
-- applications, adapters, plugins and the sandboxes, which are mostly input and output.
pub mod Base
pub mod Transition
pub mod Orchestrator
pub mod Policy
pub mod Economics
pub mod Identity
pub mod Ledger
pub mod Storage
pub mod Capability
pub mod Execution
pub mod Immune
pub mod Verification
pub mod LocalRunner
pub mod Tests
