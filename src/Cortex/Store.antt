-- ===== src/Cortex/Store.antt =====
-- cortex/store.ts: HybridStore. A table is the list of its rows in the order of insertion, and an
-- SQL statement is the function on the tables that it denotes, with the keys of
-- migrations/001_cortex.sql: `id` is the primary key of units and runs and (run_id, step_index) is
-- unique in run_steps; a run refers to its unit and a step to its run, so that an insertion without
-- the row referred to fails, and deleting a unit deletes its runs and their steps. The columns that
-- no statement of cortex/store.ts reads back (the unit's statistics, times set by NOW()) are left
-- out, and the connection to the database does not fail.
pub mod Tables
pub mod Units
pub mod Runs
pub mod Events
pub mod Keys
pub mod Integrity
pub mod Rows
pub mod Waiting
pub mod Dedupe
