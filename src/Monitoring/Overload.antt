-- ===== src/Monitoring/Overload.antt =====
-- middleware/bootstrap-rate-limiting.ts: the circuit breaker on the load of the machine. Loads are
-- whole percentages.
pub mod Hysteresis
use app_intent_system_orches.Base.{
  ℕ, Bool, true, false, not, ◌&&◌, ◌||◌, Option, none, some, List, [], ◌∷◌, ltb, if◌then◌else◌,
}

pub record Metrics : Type 0 where
  pub is_open : Bool
  pub last_check_time : ℕ
  pub cpu_percent : ℕ
  pub mem_percent : ℕ
  pub opened_at : Option ℕ

-- CPU_THRESHOLD_CRITICAL and MEMORY_THRESHOLD_CRITICAL, 85 and 92 unless the environment sets them.
pub record Thresholds : Type 0 where
  pub cpu_critical : ℕ
  pub memory_critical : ℕ

unfoldable pub is_healthy : Metrics → Bool
is_healthy m = not m.is_open

-- One check of the health; the clock is asked again when the breaker opens.
pub record Check : Type 0 where
  pub cpu : ℕ
  pub mem : ℕ
  pub time : ℕ
  pub opening_time : ℕ

unfoldable pub check_health : Thresholds → Check → Metrics → Metrics
check_health t c m =
    let m' = record m { cpu_percent = c.cpu; mem_percent = c.mem; last_check_time = c.time } in
    if ltb t.cpu_critical c.cpu || ltb t.memory_critical c.mem
    then (if m.is_open then m' else record m' { is_open = true; opened_at = some c.opening_time })
    else if ltb c.cpu 70 && ltb c.mem 80
    then (if m.is_open then record m' { is_open = false } else m')
    else m'

-- circuitBreakerMiddleware: the answer to a request.
pub data Answer : Type 0 where
  next : Answer
  unavailable : Metrics → Answer

unfoldable pub circuit_breaker_middleware : Metrics → Answer
circuit_breaker_middleware m = if is_healthy m then next else unavailable m

unfoldable pub check_all : Thresholds → List Check → Metrics → Metrics
check_all t [] m = m
check_all t (c ∷ cs) m = check_all t cs (check_health t c m)
