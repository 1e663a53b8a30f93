-- ===== src/Monitoring/Retry/Delays.antt =====
-- monitoring/error-handling.ts: RetryConfig and calculateBackoffDelay.
use app_intent_system_orches.Base.{ℕ, ◌+◌, ◌*◌, ◌^◌, min, Bool, true, if◌then◌else◌}

pub record RetryConfig : Type 0 where
  pub max_retries : ℕ
  pub initial_delay_ms : ℕ
  pub max_delay_ms : ℕ
  pub backoff_multiplier : ℕ
  pub jitter : Bool

abbrev pub default_retry_config : RetryConfig
default_retry_config = record {
  max_retries = 3;
  initial_delay_ms = 100;
  max_delay_ms = 10000;
  backoff_multiplier = 2;
  jitter = true;
}

-- Math.random() is `r / random_range`.
abbrev pub random_range : ℕ
random_range = 9007199254740992

-- A millisecond in the unit of delays.
abbrev pub millisecond : ℕ
millisecond = 2 * random_range

abbrev pub capped_delay : ℕ → RetryConfig → ℕ
capped_delay attempt config =
    min (config.initial_delay_ms * config.backoff_multiplier ^ attempt) config.max_delay_ms

-- `delay * (0.5 + random * 0.5)` is `delay * (random_range + r)` in the unit of delays.
unfoldable pub calculate_backoff_delay : ℕ → RetryConfig → ℕ → ℕ
calculate_backoff_delay attempt config r =
    if config.jitter
    then capped_delay attempt config * (random_range + r)
    else capped_delay attempt config * millisecond
