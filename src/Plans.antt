-- ===== src/Plans.antt =====
-- Plans of actions: their parameters, their confirmation and their execution.
pub mod Launcher
pub mod Placeholders
pub mod Session
pub mod Progress
pub mod Executor
