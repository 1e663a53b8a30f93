-- ===== src/Monitoring.antt =====
-- monitoring/error-handling.ts: classified errors, retries with backoff, and the circuit breaker
-- around calls of other services.
pub mod Errors
pub mod Retry
pub mod CircuitBreaker
pub mod Overload
