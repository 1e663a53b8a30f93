-- ===== src/Cortex/Poller.antt =====
-- cortex/poller.ts: Poller. The timer of `start` and `stop` is left out: `poll` is one tick of it.
pub mod Items
pub mod Connections
pub mod Failures
