-- ===== src/Cortex/Runtime.antt =====
-- cortex/runtime.ts: Runtime.
pub mod Steps
pub mod Execute
pub mod Resume
pub mod Spec
pub mod Writes
pub mod Frame
pub mod Resuming
pub mod Deleted
pub mod Parked
pub mod Outcome
