-- ===== src/Cortex.antt =====
-- cortex: automation units that events trigger, their store, matcher and runtime.
pub mod Types
pub mod Redis
pub mod Store
pub mod World
pub mod Matcher
pub mod Runtime
pub mod Dispatch
pub mod Shaper
pub mod Poller
pub mod Tools
