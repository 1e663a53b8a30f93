-- ===== src/Monitoring/Overload/Hysteresis.antt =====
-- When middleware/bootstrap-rate-limiting.ts refuses requests.
use app_intent_system_orches.Base.{
  ◌≡◌, refl, ap, ◌∙◌, Bool, true, false, ◌&&◌, ◌||◌, List, [], ◌∷◌, ltb, arith, if◌then◌else◌,
}
use app_intent_system_orches.Monitoring.Overload.{
  Metrics, Thresholds, Check, check_health, check_all, next, unavailable, is_healthy,
  circuit_breaker_middleware,
}

abbrev pub is_critical : Thresholds → Check → Bool
is_critical t c = ltb t.cpu_critical c.cpu || ltb t.memory_critical c.mem

abbrev pub is_calm : Check → Bool
is_calm c = ltb c.cpu 70 && ltb c.mem 80

-- Whether requests are refused after the checks, given whether they were before: the last check that
-- was critical or calm decides, and one that was both counts as critical.
abbrev pub is_overloaded : Thresholds → List Check → Bool → Bool
is_overloaded t [] before = before
is_overloaded t (c ∷ cs) before =
    is_overloaded t cs (if is_critical t c then true else if is_calm c then false else before)

checked :
    (t : Thresholds) (c : Check) (m : Metrics)
    → (check_health t c m).is_open
      ≡ (if is_critical t c then true else if is_calm c then false else m.is_open)
unfolding check_health
checked t c m = ground arith

overloaded_after :
    (t : Thresholds) (cs : List Check) (m : Metrics)
    → (check_all t cs m).is_open ≡ is_overloaded t cs m.is_open
unfolding check_all
overloaded_after t [] m = refl
overloaded_after t (c ∷ cs) m =
    overloaded_after t cs (check_health t c m) ∙ ap (is_overloaded t cs) (checked t c m)

-- After any checks, requests are refused exactly if the last check that decides was critical: between
-- the critical and the calm loads the breaker stays as it was.
pub check_all-is_overloaded :
    (t : Thresholds) (cs : List Check) (m : Metrics)
    → circuit_breaker_middleware (check_all t cs m)
      ≡ (if is_overloaded t cs m.is_open then unavailable (check_all t cs m) else next)
unfolding circuit_breaker_middleware is_healthy
check_all-is_overloaded t cs m = rw (overloaded_after t cs m) (ground arith)
