-- ===== src/Tests/Monitoring.antt =====
-- The theorems on errors, retries and circuit breakers at concrete inputs.
use app_intent_system_orches.Base.{
  ◌⊎◌, ℕ, zero, suc, ◌*◌, ◌≤◌, ◌≡◌, refl, true, false, none, some, List, [], ◌∷◌, ◌++◌, arith,
}
use app_intent_system_orches.Monitoring.Retry.Delays.{
  default_retry_config, calculate_backoff_delay, capped_delay, random_range, millisecond,
}
use app_intent_system_orches.Monitoring.Retry.Loop.{Outcome, returned, threw, with_retry}
use app_intent_system_orches.Monitoring.Retry.Laws.{
  IsDecidedBy, calculate_backoff_delay_bounds, with_retry-IsDecidedBy,
}
use app_intent_system_orches.Monitoring.CircuitBreaker.{
  closed, open_state, Config, PartialConfig, Breaker, Call, configure, new_breaker, admit, admitted,
  run,
}
use app_intent_system_orches.Monitoring.CircuitBreaker.Invariant.{
  IsValid, Shared, Step, Reach, Reach-fresh-IsValid,
}
use app_intent_system_orches.Monitoring.CircuitBreaker.Counting.{run_counts_failures}
use app_intent_system_orches.Monitoring.Overload.{
  Metrics, Thresholds, Check, check_all, circuit_breaker_middleware, unavailable,
}
use app_intent_system_orches.Monitoring.Overload.Hysteresis.{check_all-is_overloaded}

calculate_backoff_delay_bounds_example :
    (calculate_backoff_delay 2 default_retry_config 5 ≤ 10000 * millisecond)
    × (capped_delay 2 default_retry_config * random_range
        ≤ calculate_backoff_delay 2 default_retry_config 5)
    × ((default_retry_config.jitter ≡ true)
        ⊎ (calculate_backoff_delay 2 default_retry_config 5
            ≡ capped_delay 2 default_retry_config * millisecond))
calculate_backoff_delay_bounds_example =
    calculate_backoff_delay_bounds 2 default_retry_config 5 (omega arith)

-- The operation is refused once and then returns the number of the attempt.
abbrev flaky : ℕ → Outcome ℕ
flaky zero = threw (record { message = "connect ECONNREFUSED"; retryable = none })
flaky (suc n) = returned n

with_retry-IsDecidedBy_example :
    (last : ℕ) × IsDecidedBy flaky "load"
      (λ i. 0)
      default_retry_config
      last
      (with_retry flaky "load" (λ i. 0) default_retry_config)
with_retry-IsDecidedBy_example = with_retry-IsDecidedBy flaky "load" (λ i. 0) default_retry_config

abbrev defaults : PartialConfig
defaults = record { failure_threshold = none; success_threshold = none; timeout = none }

abbrev config : Config
config = record { failure_threshold = 2; success_threshold = 1; timeout = 1000 }

first_call_starts : (admit (configure defaults) 5 new_breaker).1 ≡ admitted
unfolding admit configure new_breaker
first_call_starts = refl

abbrev one_in_flight : Shared
one_in_flight = record { breaker = (admit (configure defaults) 5 new_breaker).0; in_flight = 1 }

Reach-fresh-IsValid_example : IsValid (configure defaults) one_in_flight.breaker
Reach-fresh-IsValid_example =
    Reach-fresh-IsValid defaults one_in_flight
      (Reach.next Reach.here (Step.start 5 first_call_starts))

abbrev tripped : Breaker
tripped = record {
  state = open_state;
  failure_count = 2;
  success_count = 0;
  last_failure_time = some 10;
}

tripped-IsValid : IsValid config tripped
tripped-IsValid = ground arith

abbrev calls : List Call
calls =
    record { started = 1; ended = 2; succeeds = false }
    ∷ record { started = 3; ended = 4; succeeds = true }
    ∷ []

abbrev failing : Call
failing = record { started = 900; ended = 901; succeeds = false }

abbrev untouched : Breaker
untouched = record {
  state = closed;
  failure_count = 0;
  success_count = 0;
  last_failure_time = none;
}

run_counts_failures_example :
    ((run config calls untouched).state ≡ closed)
    × ((run config calls untouched).failure_count ≡ 1)
    × ((run config (calls ++ failing ∷ []) untouched).state ≡ open_state)
run_counts_failures_example =
    run_counts_failures config untouched calls failing refl refl (omega arith)

abbrev thresholds : Thresholds
thresholds = record { cpu_critical = 85; memory_critical = 92 }

abbrev checks : List Check
checks =
    record { cpu = 90; mem = 50; time = 1; opening_time = 1 }
    ∷ record { cpu = 75; mem = 50; time = 2; opening_time = 2 }
    ∷ []

abbrev idle : Metrics
idle = record {
  is_open = false;
  last_check_time = 0;
  cpu_percent = 0;
  mem_percent = 0;
  opened_at = none;
}

check_all-is_overloaded_example :
    circuit_breaker_middleware (check_all thresholds checks idle)
    ≡ unavailable (check_all thresholds checks idle)
check_all-is_overloaded_example = check_all-is_overloaded thresholds checks idle
