-- ===== src/Cortex/Shaper.antt =====
-- cortex/event-shaper.ts: EventShaper, made by index.ts with processCortexEvent as `emit`. The log
-- lines are left out. The shape functions on records keep, as their state, the object that the
-- source writes with JSON.stringify and reads with JSON.parse.
pub mod Webhook
pub mod Records
pub mod Leads
pub mod Opportunities
