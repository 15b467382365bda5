-- ===== src/Scheduler.antt =====
-- internal/scheduler: which slot of which worker holds which sandbox.
pub mod Types
pub mod Ops
pub mod Strategies
pub mod Slots
pub mod Candidates
pub mod Invariant
pub mod Safety
pub mod Calls
pub mod Recovery
mod Tests
