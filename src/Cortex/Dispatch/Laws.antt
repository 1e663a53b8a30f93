-- ===== src/Cortex/Dispatch/Laws.antt =====
-- Which runs index.ts processCortexEvent starts.
use app_intent_system_orches.Base.{
  String, ◌≡◌, refl, ap, sym, subst, ◌⊎◌, inl, inr, true, false, is_some, none, [], keep, All,
  Bool-cases, Option-cases,
}
use app_intent_system_orches.Cortex.Types.{Event}
use app_intent_system_orches.Cortex.Redis.{Redis}
use app_intent_system_orches.Cortex.World.{Outside}
use app_intent_system_orches.Cortex.Store.Tables.{Store}
use app_intent_system_orches.Cortex.Store.Events.{write_event, dedupe_of, dedupe_name}
use app_intent_system_orches.Cortex.Matcher.Laws.{
  IsPlain, AreRunsOf, match-AreRunsOf, is_started_by,
}
use app_intent_system_orches.Cortex.Dispatch.{process_event}

module _ {redis : Redis} (encode : Event → String) (e : Event) (s : Store redis) where
  -- The event is stored and published, or it is a duplicate and nothing changes.
  write_event_keeps :
      ((write_event encode e s).1 ≡ false × (write_event encode e s).0 ≡ s)
      ⊎ ((write_event encode e s).1 ≡ true × (write_event encode e s).0.units ≡ s.units)
  unfolding write_event
  write_event_keeps = elim (Option-cases (dedupe_of e.dedupe_key)) [
    | inl d ↦ inr (rw (d, write_event) (refl, refl))
    | inr (key, d) ↦ elim (Bool-cases (is_some (redis.get s.cache (dedupe_name key)))) [
      | inl seen ↦ inl (rw (d, write_event) (rw seen (refl, refl)))
      | inr new ↦ inr (rw (d, write_event) (rw new (refl, refl)))
    ]
  ]

-- A duplicate starts no run.
pub refused_starts_none :
    (outside : Outside) {redis : Redis} (encode : Event → String) (e : Event) (s : Store redis)
    (w : outside.World)
    → write_event encode e s ≡ (s, false)
    → process_event outside encode e s w
      ≡ record { started = []; logged = none; store = s; world = w }
unfolding process_event
refused_starts_none outside encode e s w h =
    rw (ap (λ p. p.1) h, process_event) (rw (ap (λ p. p.0) h) refl)

-- If no unit asks the language model, an event that the store refuses as a duplicate starts no run and
-- changes nothing; any other event starts one pending run for each active unit whose trigger, filter
-- and conditions it meets, in the order of the table, and no error is logged.
pub process_event-AreRunsOf :
    (outside : Outside) {redis : Redis} (encode : Event → String) (e : Event) (s : Store redis)
    (w : outside.World)
    → All (λ u. All IsPlain u.conditions) s.units
    → let done = process_event outside encode e s w in
      (((write_event encode e s).1 ≡ false) × (done.started ≡ []) × (done.store ≡ s))
      ⊎ (((write_event encode e s).1 ≡ true)
          × AreRunsOf e (keep (is_started_by outside e) s.units) done.started
          × (done.logged ≡ none))
unfolding process_event
process_event-AreRunsOf outside encode e s w plain =
    let s' = (write_event encode e s).0 in
    elim (write_event_keeps encode e s) [
      | inl (old, same) ↦ inl (old, rw (old, process_event) refl, rw (old, process_event) same)
      | inr (fresh, same) ↦
          let (created, returned, runs, kept) =
            match-AreRunsOf outside e s' w
              (subst (All (λ u. All IsPlain u.conditions)) (sym same) plain) in
          inr (
            fresh,
            rw (fresh, process_event) (rw returned (rw same at runs)),
            rw (fresh, process_event) (rw returned refl),
          )
    ]
