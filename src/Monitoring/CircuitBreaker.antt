-- ===== src/Monitoring/CircuitBreaker.antt =====
-- monitoring/error-handling.ts: CircuitBreaker. `execute` awaits the operation between its two
-- parts, so a breaker that calls share sees `admit` and `settle` of several calls interleaved.
-- A time is a number of milliseconds; the clock of one breaker does not run backwards.
pub mod Invariant
pub mod Counting
use app_intent_system_orches.Base.{
  ℕ, ◌+◌, ◌-◌, Bool, true, false, Option, none, some, List, [], ◌∷◌, ltb, leb, ◌==◌, nat_eq,
  if◌then◌else◌,
}

pub data BreakerState : Type 0 where
  closed open_state half_open : BreakerState

pub record Config : Type 0 where
  pub failure_threshold : ℕ
  pub success_threshold : ℕ
  pub timeout : ℕ

pub record Breaker : Type 0 where
  pub state : BreakerState
  pub failure_count : ℕ
  pub success_count : ℕ
  pub last_failure_time : Option ℕ

-- config.x || d, where a missing number and 0 give the default
abbrev or_default : Option ℕ → ℕ → ℕ
or_default none d = d
or_default (some n) d = if n == 0 then d else n

pub record PartialConfig : Type 0 where
  pub failure_threshold : Option ℕ
  pub success_threshold : Option ℕ
  pub timeout : Option ℕ

unfoldable pub configure : PartialConfig → Config
configure p = record {
  failure_threshold = or_default p.failure_threshold 5;
  success_threshold = or_default p.success_threshold 2;
  timeout = or_default p.timeout 60000;
}

unfoldable pub new_breaker : Breaker
new_breaker = record {
  state = closed;
  failure_count = 0;
  success_count = 0;
  last_failure_time = none;
}

-- this.lastFailureTime || 0
abbrev pub time_or_zero : Option ℕ → ℕ
time_or_zero none = 0
time_or_zero (some t) = t

pub data Admission : Type 0 where
  admitted : Admission
  rejected : (retry_after_ms : ℕ) → Admission

abbrev pub is_open : BreakerState → Bool
is_open open_state = true
is_open _ = false

abbrev pub is_half_open : BreakerState → Bool
is_half_open half_open = true
is_half_open _ = false

-- The part of `execute` before the operation starts.
unfoldable pub admit : Config → ℕ → Breaker → Breaker × Admission
admit config now b =
    let since = now - time_or_zero b.last_failure_time in
    if is_open b.state
    then (if ltb config.timeout since
        then (record b { state = half_open; success_count = 0 }, admitted)
        else (b, rejected (config.timeout - since)))
    else (b, admitted)

-- The part after the operation returned.
unfoldable pub settle_success : Config → Breaker → Breaker
settle_success config b =
    if is_half_open b.state
    then (if leb config.success_threshold (b.success_count + 1)
        then record b { success_count = b.success_count + 1; state = closed; failure_count = 0 }
        else record b { success_count = b.success_count + 1 })
    else b

-- The part after the operation threw.
unfoldable pub settle_failure : Config → ℕ → Breaker → Breaker
settle_failure config now b =
    if leb config.failure_threshold (b.failure_count + 1)
    then record b {
      last_failure_time = some now;
      failure_count = b.failure_count + 1;
      state = open_state;
    }
    else record b { last_failure_time = some now; failure_count = b.failure_count + 1 }

abbrev pub settle : Config → ℕ → Bool → Breaker → Breaker
settle config now true b = settle_success config b
settle config now false b = settle_failure config now b

-- One call that no other call overlaps: it starts at `started` and ends at `ended`.
pub record Call : Type 0 where
  pub started : ℕ
  pub ended : ℕ
  pub succeeds : Bool

abbrev finish : Config → Call → Breaker × Admission → Breaker
finish config c (b, admitted) = settle config c.ended c.succeeds b
finish config c (b, rejected after) = b

unfoldable pub execute : Config → Call → Breaker → Breaker
unfolding admit settle_success settle_failure
execute config c b = finish config c (admit config c.started b)

unfoldable pub run : Config → List Call → Breaker → Breaker
run config [] b = b
run config (c ∷ cs) b = run config cs (execute config c b)
