-- ===== src/Gate.antt =====
-- src/gate.rs: the gate of an inbox from the writer's side.
pub mod Work
pub mod Digits
pub mod Search
pub mod Canonical
pub mod Rate
pub mod Plan
