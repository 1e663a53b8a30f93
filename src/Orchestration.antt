-- ===== src/Orchestration.antt =====
-- services/tool/ToolOrchestrator.ts: the execution of one tool.
pub mod Samples
pub mod Demo
pub mod Fallback
pub mod Arguments
pub mod EntityCache
pub mod Duplicates
pub mod Connections
