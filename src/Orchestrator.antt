-- ===== src/Orchestrator.antt =====
-- runtime/orchestrator/src: the workflow executor and what it is made of.
pub mod Json
pub mod Types
pub mod NodeMachine
pub mod Errors
pub mod Bulkhead
pub mod Idempotency
pub mod Retry
pub mod Executor
