-- ===== src/Monitoring/Retry/Laws.antt =====
-- What `withRetry` and `calculateBackoffDelay` of monitoring/error-handling.ts do.
use app_intent_system_orches.Base.{
  ℕ, zero, suc, ◌+◌, ◌*◌, ◌≤◌, ◌<◌, ◌≡◌, refl, subst, String, true, false, Option, none, some, List,
  [], ◌∷◌, ◌++◌, ◌⊎◌, inl, inr, arith, Bool-cases,
}
use native.Mathlib.Numerals.{add-one}
use native.Mathlib.Decide.{ℕ_discrete}
use app_intent_system_orches.Monitoring.Errors.{Thrown}
use app_intent_system_orches.Monitoring.Retry.Delays.{
  RetryConfig, random_range, millisecond, capped_delay, calculate_backoff_delay,
}
use app_intent_system_orches.Monitoring.Retry.Loop.{
  Outcome, returned, threw, Retried, may_retry, retry_loop, with_retry,
}

mul_mono_right : (a b c : ℕ) → b ≤ c → a * b ≤ a * c
mul_mono_right a b c h = grind arith

jittered_le : (a b c d : ℕ) → a ≤ b → c ≤ d → a * c ≤ b * d
jittered_le a b c d h k = grind arith

-- Whatever is drawn, a delay is at most the configured maximum and at least half of the capped
-- exponential delay; and either the configuration asks for jitter, or it is that delay.
pub calculate_backoff_delay_bounds :
    (attempt : ℕ) (config : RetryConfig) (r : ℕ)
    → r < random_range
    → (calculate_backoff_delay attempt config r ≤ config.max_delay_ms * millisecond)
      × (capped_delay attempt config * random_range ≤ calculate_backoff_delay attempt config r)
      × ((config.jitter ≡ true)
          ⊎ (calculate_backoff_delay attempt config r ≡ capped_delay attempt config * millisecond))
unfolding calculate_backoff_delay
calculate_backoff_delay_bounds attempt config r h =
    let delay = capped_delay attempt config in
    let capped : delay ≤ config.max_delay_ms = omega arith in
    elim (Bool-cases config.jitter) [
      | inl jittered ↦ rw jittered (
        jittered_le delay _ (random_range + r) millisecond capped (omega arith),
        mul_mono_right delay random_range (random_range + r) (omega arith),
        inl refl,
      )
      | inr plain ↦ rw plain (
        jittered_le delay _ millisecond millisecond capped (omega arith),
        mul_mono_right delay random_range millisecond (omega arith),
        inr refl,
      )
    ]

Outcome-cases :
    {A : Type 0} (o : Outcome A)
    → ((a : A) × (o ≡ returned a)) ⊎ ((error : Thrown) × (o ≡ threw error))
Outcome-cases (returned a) = inl (a, refl)
Outcome-cases (threw error) = inr (error, refl)

module _ {A : Type 0} (operation : ℕ → Outcome A) (name : String) (random : ℕ → ℕ)
    (config : RetryConfig) where
  -- The attempt failed with an error after which another attempt is allowed.
  abbrev pub FailsRetryably : ℕ → Type 0
  FailsRetryably i =
      (error : Thrown) × (operation i ≡ threw error) × (may_retry config i error ≡ true)

  -- The sleeps after the first `n` attempts.
  abbrev pub sleeps_before : ℕ → List ℕ
  sleeps_before zero = []
  sleeps_before (suc n) = sleeps_before n ++ calculate_backoff_delay n config (random n) ∷ []

  -- `last` is the attempt whose outcome is passed on.
  pub record IsDecidedBy (last : ℕ) (r : Retried A) : Type 0 where
    pub within : last ≤ config.max_retries
    pub outcome : r.outcome ≡ operation last
    pub calls : r.calls ≡ last + 1
    pub sleeps : r.sleeps ≡ sleeps_before last
    pub before : (i : ℕ) → i < last → FailsRetryably i
    pub final :
        (error : Thrown) → operation last ≡ threw error → may_retry config last error ≡ false

  FailsRetryably-snoc :
      (n : ℕ)
      → ((i : ℕ) → i < n → FailsRetryably i)
      → FailsRetryably n
      → (i : ℕ) → i < n + 1
      → FailsRetryably i
  FailsRetryably-snoc n before here i h = elim (ℕ_discrete i n) [
    | yes e ↦ rw e here
    | no ne ↦ before i (omega arith)
  ]

  loop : ℕ → ℕ → Option Thrown → List ℕ → Retried A
  loop = retry_loop operation name random config

  module _ (rounds attempt : ℕ) (last : Option Thrown) (sleeps : List ℕ) where
    loop_returned :
        (a : A)
        → operation attempt ≡ returned a
        → loop (suc rounds) attempt last sleeps
          ≡ record { outcome = operation attempt; calls = attempt + 1; sleeps = sleeps }
    unfolding loop retry_loop
    loop_returned a e = rw (e, retry_loop)

    loop_final :
        (error : Thrown)
        → operation attempt ≡ threw error
        → may_retry config attempt error ≡ false
        → loop (suc rounds) attempt last sleeps
          ≡ record { outcome = operation attempt; calls = attempt + 1; sleeps = sleeps }
    unfolding loop retry_loop
    loop_final error e over = rw (e, retry_loop) (rw over)

    loop_again :
        (error : Thrown)
        → operation attempt ≡ threw error
        → may_retry config attempt error ≡ true
        → loop (suc rounds) attempt last sleeps
          ≡ loop rounds
              (attempt + 1)
              (some error)
              (sleeps ++ calculate_backoff_delay attempt config (random attempt) ∷ [])
    unfolding loop retry_loop
    loop_again error e more = rw (e, retry_loop) (rw more)

    -- The round at which the loop ends.
    ends :
        attempt ≤ config.max_retries
        → sleeps ≡ sleeps_before attempt
        → ((i : ℕ) → i < attempt → FailsRetryably i)
        → ((error : Thrown)
            → operation attempt ≡ threw error
            → may_retry config attempt error ≡ false)
        → IsDecidedBy attempt
            (record { outcome = operation attempt; calls = attempt + 1; sleeps = sleeps })
    ends within slept before final = record {
      within = within;
      outcome = refl;
      calls = refl;
      sleeps = slept;
      before = before;
      final = final;
    }

    -- One round: it ends the loop, or hands over to the next.
    round :
        attempt ≤ config.max_retries
        → sleeps ≡ sleeps_before attempt
        → ((i : ℕ) → i < attempt → FailsRetryably i)
        → (FailsRetryably attempt → (n : ℕ) × IsDecidedBy n (loop (suc rounds) attempt last sleeps))
        → (n : ℕ) × IsDecidedBy n (loop (suc rounds) attempt last sleeps)
    round within slept before next = elim (Outcome-cases (operation attempt)) [
      | inl (a, e) ↦ (attempt, rw (loop_returned a e) (ends within slept before (λ error f. cc)))
      | inr (error, e) ↦ elim (Bool-cases (may_retry config attempt error)) [
        | inl more ↦ next (error, e, more)
        | inr over ↦ (
          attempt,
          rw (loop_final error e over) (
              ends within slept before
                (λ other f. subst (λ x. may_retry config attempt x ≡ false) (cc) over)),
        )
      ]
    ]

  loop-IsDecidedBy :
      (rounds attempt : ℕ) (last : Option Thrown) (sleeps : List ℕ)
      → attempt + rounds ≡ config.max_retries
      → sleeps ≡ sleeps_before attempt
      → ((i : ℕ) → i < attempt → FailsRetryably i)
      → (n : ℕ) × IsDecidedBy n (loop (suc rounds) attempt last sleeps)
  loop-IsDecidedBy zero attempt last sleeps count slept before =
      round zero attempt last sleeps (omega arith) slept before
        (λ (error, e, more). absurd (ground (arith, more)))
  loop-IsDecidedBy (suc rounds) attempt last sleeps count slept before =
      round (suc rounds) attempt last sleeps (omega arith) slept before λ fails.
        rw (loop_again (suc rounds) attempt last sleeps fails.0 fails.1 fails.2) (
          loop-IsDecidedBy rounds (attempt + 1) (some fails.0) _ (omega arith) (rw (add-one, slept))
            (FailsRetryably-snoc attempt before fails))

-- `withRetry` passes on the outcome of one attempt, at most the last one allowed: every attempt
-- before it failed with an error that may be retried, it itself did not, and between the attempts
-- it slept for exactly the backoff delays.
pub with_retry-IsDecidedBy :
    {A : Type 0} (operation : ℕ → Outcome A) (name : String) (random : ℕ → ℕ) (config : RetryConfig)
    → (last : ℕ) × IsDecidedBy operation name random config last
        (with_retry operation name random config)
unfolding with_retry loop
with_retry-IsDecidedBy operation name random config = rw add-one (
    loop-IsDecidedBy operation name random config config.max_retries 0 none [] (omega arith) refl
      (λ i h. absurd (omega arith)))
