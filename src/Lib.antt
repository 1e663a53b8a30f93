-- ===== src/Lib.antt =====
-- App Intent System Orchestrator: models of the backend under src/ and theorems about them.
--
-- The core of the backend is cortex, an event automation engine. A provider's webhook (or a
-- poll of the provider) becomes an event; the store refuses duplicates; the matcher finds the
-- automation units that the event triggers and saves one run for each; the runtime executes the
-- actions of a run one after the other, parks it at a wait, and resumes it when its time has
-- come. Around it stand the services that decide on plans of tools and follow their execution,
-- the registry of sessions, and the error handling that all calls of other services share.
--
-- The modules and the files that they model:
--   * Base: helpers (tests, lists, results, texts, integers over the native numbers).
--   * Js: untyped values, JSON.stringify, template literals, and the placeholder replacement
--     that src/cortex/matcher.ts (resolveTemplate) and src/cortex/runtime.ts (resolveArgs)
--     share.
--   * Cortex.Types, Cortex.World: src/cortex/types.ts, and the outside as a record of functions
--     on a world: the clock, random ids, the language model, tools, and the evaluation of
--     expressions given as text. No law of them is assumed.
--   * Cortex.Redis, Cortex.Store: src/cortex/store.ts. The tables of Postgres are lists of rows
--     with the keys and references of migrations/001_cortex.sql; the Redis client is a record
--     of commands with the laws that its documentation states.
--   * Cortex.Matcher, Cortex.Dispatch, Cortex.Runtime: src/cortex/matcher.ts,
--     processCortexEvent of src/index.ts, and src/cortex/runtime.ts. The state is threaded
--     through; a method that throws keeps what it had stored.
--   * Cortex.Shaper: src/cortex/event-shaper.ts, handleWebhook and the shaping of leads and
--     opportunities.
--   * Cortex.Poller: src/cortex/poller.ts, pollProvider (Items; Items.Rules are its types of
--     event as tables of rules) and poll (Connections).
--   * Cortex.Tools: src/cortex/tools.ts.
--   * Services.Decision, Services.Runs, Services.Sessions:
--     src/services/ExecutionDecisionService.ts, src/services/tool/RunManager.ts with
--     run.types.ts, and src/services/SessionRegistry.ts on a client of Redis sets that expire,
--     with stated laws.
--   * Monitoring.Errors, Monitoring.Retry, Monitoring.CircuitBreaker:
--     src/monitoring/error-handling.ts. Monitoring.Overload: the load breaker of
--     src/middleware/bootstrap-rate-limiting.ts.
--   * Catalog.Config: src/services/tool/ToolConfigManager.ts, the catalogue of tools (loading,
--     lookups, checks of arguments). Catalog.Access:
--     src/services/tool/ProviderAwareToolFilter.ts with providerAliases.ts and
--     UserToolCacheService.ts, which tools a user has, on a cache with stated laws and a time
--     to live.
--   * Plans.Launcher: src/action-launcher.service.ts, the actions of a session and their
--     parameters. Plans.Placeholders, Plans.Progress and Plans.Executor:
--     src/services/PlanExecutorService.ts, the execution of a plan step by step; the executor
--     calls the launcher, which calls the tool orchestrator, the interface that Cortex.Tools
--     has too. Plans.Session: what the client is sent, and the messages of
--     src/services/PlannerService.ts on steps.
--   * Orchestration: src/services/tool/ToolOrchestrator.ts, the search for a connection and the
--     dispatcher (Connections), the normalization of arguments, the model that a tool reads,
--     and the answer of a tool that reads from the cache, with the built-in records (Fallback,
--     Samples, Demo). Orchestration.EntityCache, Orchestration.Duplicates:
--     src/services/data/CRMEntityCacheService.ts and
--     src/services/tool/ToolExecutionDeduplicationService.ts, the results of fetches that are
--     remembered in a session, for an hour.
--   * Tests: concrete clients and worlds, for which the laws of the interfaces are proved, and
--     each of the results at a concrete input.
--
-- Bounds and fuel: the loop of the runtime runs on as much fuel as the unit has actions, and
-- one more for its last test; execute-execute_plainly shows that this is enough. The loop of
-- executePlan runs on the number of steps, which it does not change. The loop of withRetry
-- recurses on the attempts that are left. Numbers are natural numbers or integers without
-- bounds: amounts and times of the program stay far below 2^53, where its floating point
-- numbers are exact. A backoff delay is counted in fractions of a millisecond so that the
-- random factor is exact.
--
-- Not modelled: failures of the connections to Redis and Postgres, and keys that expire while a
-- handler runs; the order of rows that a statement leaves open, for which the order of
-- insertion stands; columns that no statement reads back; log lines; properties that objects
-- inherit; the text of JSON that the program itself reads again (such state is kept as the
-- value). Runs that processCortexEvent starts without awaiting them are its result, and their
-- executions are calls of their own. What is left out of each file is said in the comment of
-- its module.
pub mod Base
pub mod Js
pub mod Cortex
pub mod Monitoring
pub mod Services
pub mod Catalog
pub mod Plans
pub mod Orchestration
mod Tests
