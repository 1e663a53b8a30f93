-- ===== src/Monitoring/CircuitBreaker/Counting.antt =====
-- How failures add up in a circuit breaker.
use app_intent_system_orches.Base.{
  ℕ, ltb, if◌then◌else◌, ◌+◌, ◌<◌, ◌≡◌, refl, true, false, List, [], ◌∷◌, ◌++◌, arith,
}
use app_intent_system_orches.Monitoring.CircuitBreaker.{
  closed, open_state, Config, Breaker, Call, execute, run,
}

-- How many of the calls fail.
abbrev pub fails : Call → ℕ
fails c = elim c.succeeds [ true ↦ 0 | false ↦ 1 ]

abbrev pub failures : List Call → ℕ
failures [] = 0
failures (c ∷ cs) = fails c + failures cs

execute_closed :
    (config : Config) (c : Call) (b : Breaker)
    → b.state ≡ closed
    → b.failure_count + fails c < config.failure_threshold
    → ((execute config c b).state ≡ closed)
      × ((execute config c b).failure_count ≡ b.failure_count + fails c)
unfolding execute
execute_closed config c b h room = ground arith

run_closed :
    (config : Config) (cs : List Call) (b : Breaker)
    → b.state ≡ closed
    → b.failure_count + failures cs < config.failure_threshold
    → ((run config cs b).state ≡ closed)
      × ((run config cs b).failure_count ≡ b.failure_count + failures cs)
unfolding run
run_closed config [] b h room = (h, omega arith)
run_closed config (c ∷ cs) b h room =
    let (still, count) = execute_closed config c b h (omega arith) in
    let (final, total) = run_closed config cs (execute config c b) still (omega arith) in
    (final, omega arith)

run-snoc :
    (config : Config) (cs : List Call) (c : Call) (b : Breaker)
    → run config (cs ++ c ∷ []) b ≡ execute config c (run config cs b)
unfolding run
run-snoc config [] c b = refl
run-snoc config (d ∷ cs) c b = run-snoc config cs c (execute config d b)

execute_closed_cases :
    (config : Config) (c : Call) (b : Breaker)
    → b.state ≡ closed
    → b.failure_count < config.failure_threshold
    → (execute config c b).state
      ≡ (if ltb (b.failure_count + fails c) config.failure_threshold then closed else open_state)
unfolding execute
execute_closed_cases config c b h room = ground arith

-- Calls that do not overlap, from a closed breaker with no failure counted: after `cs` with fewer
-- failures than the threshold it is closed and has counted them all, whatever successes lie between
-- them and however long ago they were; and one more call leaves it closed, or opens it if that call
-- is the failure that reaches the threshold.
pub run_counts_failures :
    (config : Config) (b : Breaker) (cs : List Call) (c : Call)
    → b.state ≡ closed
    → b.failure_count ≡ 0
    → failures cs < config.failure_threshold
    → ((run config cs b).state ≡ closed)
      × ((run config cs b).failure_count ≡ failures cs)
      × ((run config (cs ++ c ∷ []) b).state
          ≡ (if ltb (failures cs + fails c) config.failure_threshold then closed else open_state))
run_counts_failures config b cs c h zeroed room =
    let (still, count) = run_closed config cs b h (omega arith) in
    let counted : (run config cs b).failure_count ≡ failures cs = omega arith in
    (
      still,
      counted,
      rw (run-snoc, ← counted)
          (execute_closed_cases config c (run config cs b) still (rw counted room)),
    )
