-- ===== src/Tests.antt =====
-- The theorems at concrete inputs.
mod Runs
mod Tables
mod Isolation
mod Decisions
mod Accounts
mod Stores
mod Immunity
mod Running
