-- ===== src/Monitoring/Retry/Loop.antt =====
-- monitoring/error-handling.ts: withRetry and withTimeout. The operation is a function of the
-- number of the attempt, which stands for what the outside world answers at that call; `random`
-- is the value drawn before the sleep that follows that attempt.
use app_intent_system_orches.Base.{
  ℕ, zero, suc, ◌+◌, String, Bool, true, false, ◌&&◌, Option, none, some, List, [], ◌∷◌, ◌++◌, ltb,
  ◌==◌, nat_eq, concat, show_nat, if◌then◌else◌,
}
use app_intent_system_orches.Monitoring.Errors.{Thrown, is_transient_error}
use app_intent_system_orches.Monitoring.Retry.Delays.{RetryConfig, calculate_backoff_delay}

pub data Outcome (A : Type 0) : Type 0 where
  returned : A → Outcome A
  threw : Thrown → Outcome A

-- What a call of `withRetry` did: its outcome, how often it ran the operation, how long it slept.
pub record Retried (A : Type 0) : Type 0 where
  pub outcome : Outcome A
  pub calls : ℕ
  pub sleeps : List ℕ

-- error.retryable !== false
abbrev not_marked_final : Option Bool → Bool
not_marked_final (some false) = false
not_marked_final _ = true

abbrev pub may_retry : RetryConfig → ℕ → Thrown → Bool
may_retry config attempt error =
    not_marked_final error.retryable && ltb attempt config.max_retries && is_transient_error error

-- throw lastError || new Error(…)
abbrev exhausted : String → ℕ → Option Thrown → Thrown
exhausted name retries none = record {
  message = concat (name ∷ " failed after " ∷ show_nat retries ∷ " retries" ∷ []);
  retryable = none;
}
exhausted name retries (some error) = error

module _ {A : Type 0} (operation : ℕ → Outcome A) (name : String) (random : ℕ → ℕ)
    (config : RetryConfig) where
  -- The `for` loop, by recursion on the rounds left.
  unfoldable pub retry_loop : ℕ → ℕ → Option Thrown → List ℕ → Retried A
  retry_loop zero attempt last sleeps = record {
    outcome = threw (exhausted name config.max_retries last);
    calls = attempt;
    sleeps = sleeps;
  }
  retry_loop (suc rounds) attempt last sleeps = elim (operation attempt) [
    | returned a ↦ record { outcome = returned a; calls = attempt + 1; sleeps = sleeps }
    | threw error ↦
        let again =
          retry_loop rounds (attempt + 1) (some error)
            (sleeps ++ calculate_backoff_delay attempt config (random attempt) ∷ []) in
        if may_retry config attempt error
        then again
        else record { outcome = threw error; calls = attempt + 1; sleeps = sleeps }
  ]

  unfoldable pub with_retry : Retried A
  unfolding retry_loop
  with_retry = retry_loop (config.max_retries + 1) 0 none []

timed_out : {A : Type 0} → ℕ → String → Outcome A
timed_out timeout_ms name = threw (record {
  message = concat (name ∷ " timed out after " ∷ show_nat timeout_ms ∷ "ms" ∷ []);
  retryable = none;
})

-- withTimeout: the race of an operation that settles after `duration` milliseconds, or never,
-- with the timer. When both are due in the same millisecond the event loop decides: `tie` is true
-- if it takes the operation first.
unfoldable pub with_timeout : {A : Type 0} → Bool → Option ℕ → Outcome A → ℕ → String → Outcome A
unfolding timed_out
with_timeout tie none outcome timeout_ms name = timed_out timeout_ms name
with_timeout tie (some duration) outcome timeout_ms name =
    if ltb duration timeout_ms
    then outcome
    else if (duration == timeout_ms) && tie
    then outcome
    else timed_out timeout_ms name
