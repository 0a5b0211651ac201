-- ===== src/Immune.antt =====
-- kernel/immune/src: detect, decide, isolate.
pub mod Types
pub mod Detector
pub mod Risk
pub mod Gate
pub mod Breaker
pub mod Quarantine
pub mod KillSwitch
pub mod Incident
pub mod Integrity
pub mod Health
pub mod Recovery
pub mod Runtime
