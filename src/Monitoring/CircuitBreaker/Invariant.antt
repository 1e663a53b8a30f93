-- ===== src/Monitoring/CircuitBreaker/Invariant.antt =====
-- What holds of a circuit breaker that any number of overlapping calls share.
use app_intent_system_orches.Base.{ℕ, suc, ◌-◌, ◌≤◌, ◌<◌, ◌≡◌, ◌⊎◌, ◌≢◌, none, some, arith}
use app_intent_system_orches.Monitoring.CircuitBreaker.{
  closed, open_state, half_open, Config, PartialConfig, configure, Breaker, new_breaker,
  time_or_zero, admitted, rejected, admit, settle_success, settle_failure,
}

pub record IsValid (config : Config) (b : Breaker) : Type 0 where
  pub closed_below : b.state ≡ closed → b.failure_count < config.failure_threshold
  pub tripped : b.state ≢ closed → config.failure_threshold ≤ b.failure_count
  pub probing : b.state ≡ half_open → b.success_count < config.success_threshold
  pub dated : b.state ≢ closed → b.last_failure_time ≢ none

-- The system: the breaker and the number of admitted calls that have not settled.
pub record Shared : Type 0 where
  pub breaker : Breaker
  pub in_flight : ℕ

module _ (config : Config) where
  -- Any call may start at any time, and any call in flight may settle.
  pub data Step : Shared → Shared → Type 0 where
    start :
        {s : Shared} (now : ℕ)
        → (admit config now s.breaker).1 ≡ admitted
        → Step s (record { breaker = (admit config now s.breaker).0; in_flight = suc s.in_flight })
    refuse :
        {s : Shared} (now after : ℕ) → (admit config now s.breaker).1 ≡ rejected after → Step s s
    return :
        (b : Breaker) (n : ℕ)
        → Step
            (record { breaker = b; in_flight = suc n })
            (record { breaker = settle_success config b; in_flight = n })
    throw :
        (b : Breaker) (n now : ℕ)
        → Step
            (record { breaker = b; in_flight = suc n })
            (record { breaker = settle_failure config now b; in_flight = n })

  pub data Reach (s : Shared) : Shared → Type 0 where
    here : Reach s s
    next : {t u : Shared} → Reach s t → Step t u → Reach s u

new_breaker-IsValid : (p : PartialConfig) → IsValid (configure p) new_breaker
unfolding configure new_breaker
new_breaker-IsValid p = ground arith

admit-IsValid :
    (config : Config) (now : ℕ) (b : Breaker)
    → 0 < config.success_threshold
    → IsValid config b
    → IsValid config (admit config now b).0
unfolding admit
admit-IsValid config now b pos h = ground arith

settle_success-IsValid :
    (config : Config) (b : Breaker)
    → 0 < config.failure_threshold
    → IsValid config b
    → IsValid config (settle_success config b)
unfolding settle_success
settle_success-IsValid config b pos h = ground arith

settle_failure-IsValid :
    (config : Config) (now : ℕ) (b : Breaker)
    → IsValid config b
    → IsValid config (settle_failure config now b)
unfolding settle_failure
settle_failure-IsValid config now b h = ground arith

module _ (config : Config) (fail_pos : 0 < config.failure_threshold)
    (succeed_pos : 0 < config.success_threshold) where
  Step-IsValid :
      {s t : Shared} → Step config s t → IsValid config s.breaker → IsValid config t.breaker
  Step-IsValid (start {s = s} now e) h = admit-IsValid config now s.breaker succeed_pos h
  Step-IsValid (refuse now after e) h = h
  Step-IsValid (return b n) h = settle_success-IsValid config b fail_pos h
  Step-IsValid (throw b n now) h = settle_failure-IsValid config now b h

  Reach-IsValid :
      {s t : Shared} → IsValid config s.breaker → Reach config s t → IsValid config t.breaker
  Reach-IsValid h here = h
  Reach-IsValid h (next r st) = Step-IsValid st (Reach-IsValid h r)

abbrev pub fresh : Shared
fresh = record { breaker = new_breaker; in_flight = 0 }

configure_pos :
    (p : PartialConfig)
    → (0 < (configure p).failure_threshold) × (0 < (configure p).success_threshold)
unfolding configure
configure_pos p = ground arith

-- However calls of a new breaker overlap, and whatever thresholds it was given: it is closed exactly
-- while fewer failures than the threshold are counted; while it is half open, fewer successes than
-- needed were counted; and once it has tripped, the time of the last failure is recorded.
pub Reach-fresh-IsValid :
    (p : PartialConfig) (s : Shared) → Reach (configure p) fresh s → IsValid (configure p) s.breaker
Reach-fresh-IsValid p s r =
    let (fail_pos, succeed_pos) = configure_pos p in
    Reach-IsValid (configure p) fail_pos succeed_pos (new_breaker-IsValid p) r

-- A breaker that is not closed has counted enough failures that one more failure, of any call in
-- flight, opens it again, with the time of that failure.
pub settle_failure_reopens :
    (config : Config) (now : ℕ) (b : Breaker)
    → IsValid config b
    → b.state ≢ closed
    → ((settle_failure config now b).state ≡ open_state)
      × ((settle_failure config now b).last_failure_time ≡ some now)
unfolding settle_failure
settle_failure_reopens config now b h tripped = ground arith

-- A call is refused exactly while the breaker is open and no more than the timeout has passed since
-- the last failure. A refusal changes nothing and names the time left; otherwise the breaker is not
-- open after the call was let in.
pub admit_cases :
    (config : Config) (now : ℕ) (b : Breaker)
    → ((b.state ≡ open_state)
        × (now - time_or_zero b.last_failure_time ≤ config.timeout)
        × (admit config now b
            ≡ (b, rejected (config.timeout - (now - time_or_zero b.last_failure_time)))))
      ⊎ (((b.state ≢ open_state) ⊎ (config.timeout < now - time_or_zero b.last_failure_time))
          × ((admit config now b).1 ≡ admitted)
          × ((admit config now b).0.state ≢ open_state)
          × ((admit config now b).0.failure_count ≡ b.failure_count))
unfolding admit
admit_cases config now b = grind arith
