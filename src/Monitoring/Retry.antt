-- ===== src/Monitoring/Retry.antt =====
-- monitoring/error-handling.ts: `calculateBackoffDelay`, `withRetry` and `withTimeout`.
-- A delay is a number of fractions 1/2^54 of a millisecond, so that the jitter is exact:
-- `Math.random()` is r / 2^53 for a number r below 2^53. The rounding of floats is left out.
pub mod Delays
pub mod Loop
pub mod Laws
