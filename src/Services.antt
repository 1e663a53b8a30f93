-- ===== src/Services.antt =====
-- The services that decide on plans of actions and follow their execution.
pub mod Decision
pub mod Runs
pub mod Sessions
