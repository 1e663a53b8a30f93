-- ===== src/Cortex/Store/Dedupe.antt =====
-- Deduplication of events in cortex/store.ts.
use app_intent_system_orches.Base.{
  ℕ, String, ◌≡◌, refl, inl, inr, true, false, Option, none, some, is_some, ◌==◌, string_eq,
  eq_refl, OnOk, of_OnOk, Bool-cases, Option-cases,
}
use app_intent_system_orches.Js.{Value}
use app_intent_system_orches.Cortex.Types.{Event, Run, Action, is_waiting}
use app_intent_system_orches.Cortex.Redis.{Redis}
use app_intent_system_orches.Cortex.Store.Tables.{Store, StepStatus}
use app_intent_system_orches.Cortex.Store.Units.{
  save_unit, update_unit_status, delete_unit, has_run,
}
use app_intent_system_orches.Cortex.Store.Runs.{save_run, log_run_step, note_waiting, has_unit}
use app_intent_system_orches.Cortex.Store.Events.{write_event, dedupe_of, dedupe_name, deliver}
use app_intent_system_orches.Cortex.Store.Integrity.{Change, Changes}

module _ (redis : Redis) where
  pub set-HasKey :
      (cache : redis.Data) (k v j : String)
      → is_some (redis.get cache j) ≡ true
      → is_some (redis.get (redis.set cache k v) j) ≡ true
  set-HasKey cache k v j h =
      rw (redis.get-set cache k v j)
        (elim (Bool-cases (k == j)) [ inl e ↦ rw e refl | inr e ↦ rw e h ])

  note_waiting_get :
      (run : Run) (cache : redis.Data) (j : String)
      → redis.get (note_waiting redis run cache) j ≡ redis.get cache j
  note_waiting_get run cache j = elim (Bool-cases (is_waiting run.status)) [
    | inl w ↦ elim (Option-cases run.resume_at) [
      | inl e ↦ rw (w, e) (redis.get-zrem _ _ _ _)
      | inr (at, e) ↦ rw (w, e) (redis.get-zadd _ _ _ _ _)
    ]
    | inr w ↦ rw w (redis.get-zrem _ _ _ _)
  ]

module _ {redis : Redis} where
  abbrev pub HasKey : String → Store redis → Type 0
  HasKey k s = is_some (redis.get s.cache k) ≡ true

  save_run-HasKey :
      (run : Run) (payload : Option Value) (s : Store redis) (j : String)
      → HasKey j s
      → OnOk (HasKey j) (save_run run payload s)
  unfolding save_run
  save_run-HasKey run payload s j h = elim (Bool-cases (has_run run.id s.runs)) [
    | inl old ↦ rw old (rw (note_waiting_get redis run s.cache j) h)
    | inr new ↦ rw new (elim (Bool-cases (has_unit run.unit_id s.units)) [
      | inl known ↦ rw known (rw (note_waiting_get redis run s.cache j) h)
      | inr dangling ↦ rw dangling tt
    ])
  ]

  log_run_step-HasKey :
      (id : String) (i : ℕ) (a : Action) (st : StepStatus) (result : Option Value)
      (error : Option String) (s : Store redis) (j : String)
      → HasKey j s
      → OnOk (HasKey j) (log_run_step id i a st result error s)
  unfolding log_run_step
  log_run_step-HasKey id i a st result error s j h = elim (Bool-cases (has_run id s.runs)) [
    | inl known ↦ rw known h
    | inr dangling ↦ rw dangling tt
  ]

  module _ (encode : Event → String) where
    -- The three ways in which `writeEvent` ends.
    write_plain :
        (e : Event) (s : Store redis)
        → dedupe_of e.dedupe_key ≡ none
        → write_event encode e s ≡ (deliver encode e s, true)
    unfolding write_event
    write_plain e s h = rw (h, write_event) refl

    pub write_seen :
        (e : Event) (s : Store redis) (key : String)
        → dedupe_of e.dedupe_key ≡ some key
        → HasKey (dedupe_name key) s
        → write_event encode e s ≡ (s, false)
    unfolding write_event
    write_seen e s key h seen = rw (h, write_event) (rw seen refl)

    write_new :
        (e : Event) (s : Store redis) (key : String)
        → dedupe_of e.dedupe_key ≡ some key
        → is_some (redis.get s.cache (dedupe_name key)) ≡ false
        → write_event encode e s
          ≡ (deliver encode e (record s { cache = redis.set s.cache (dedupe_name key) "1" }), true)
    unfolding write_event
    write_new e s key h new = rw (h, write_event) (rw new refl)

    write_event-HasKey :
        (e : Event) (s : Store redis) (j : String)
        → HasKey j s
        → HasKey j (write_event encode e s).0
    write_event-HasKey e s j h = elim (Option-cases (dedupe_of e.dedupe_key)) [
      | inl d ↦ rw (write_plain e s d) (set-HasKey redis _ _ _ j h)
      | inr (key, d) ↦ elim (Bool-cases (is_some (redis.get s.cache (dedupe_name key)))) [
        | inl seen ↦ rw (write_seen e s key d seen) h
        | inr new ↦
            rw (write_new e s key d new)
              (set-HasKey redis _ _ _ j (set-HasKey redis s.cache _ _ j h))
      ]
    ]

    write_event_marks :
        (e : Event) (s : Store redis) (key : String)
        → dedupe_of e.dedupe_key ≡ some key
        → HasKey (dedupe_name key) (write_event encode e s).0
    write_event_marks e s key d =
        elim (Bool-cases (is_some (redis.get s.cache (dedupe_name key)))) [
          | inl seen ↦ rw (write_seen e s key d seen) seen
          | inr new ↦ rw (write_new e s key d new) (
              set-HasKey redis _ _ _ _
                (rw (redis.get-set s.cache _ _ _) (rw (eq_refl (dedupe_name key)) refl)))
        ]

  Change-HasKey :
      {encode : Event → String} {s t : Store redis} (j : String)
      → Change encode s t
      → HasKey j s
      → HasKey j t
  unfolding save_unit update_unit_status delete_unit
  Change-HasKey j (Change.saves_unit now u) h = h
  Change-HasKey j (Change.updates_status now id st) h = h
  Change-HasKey j (Change.deletes_unit id) h = h
  Change-HasKey j (Change.saves_run {s = s} run payload e) h =
      of_OnOk (HasKey j) _ (save_run-HasKey run payload s j h) e
  Change-HasKey j (Change.logs_step {s = s} id i a st result error e) h =
      of_OnOk (HasKey j) _ (log_run_step-HasKey id i a st result error s j h) e
  Change-HasKey {encode} j (Change.writes_event {s = s} e) h = write_event-HasKey encode e s j h

  Changes-HasKey :
      {encode : Event → String} {s t : Store redis} (j : String)
      → Changes encode s t
      → HasKey j s
      → HasKey j t
  Changes-HasKey j Changes.here h = h
  Changes-HasKey j (Changes.next c d) h = Change-HasKey j d (Changes-HasKey j c h)

  -- Once an event with a dedupe key was written, a later event with the same key is refused and
  -- changes nothing, whatever else was stored between them, for as long as the key is kept.
  pub write_event-Changes :
      {encode : Event → String} {t : Store redis} (first second : Event) (key : String)
      (s : Store redis)
      → dedupe_of first.dedupe_key ≡ some key
      → dedupe_of second.dedupe_key ≡ some key
      → Changes encode (write_event encode first s).0 t
      → write_event encode second t ≡ (t, false)
  write_event-Changes {encode} {t} first second key s d₁ d₂ changes =
      write_seen encode second t key d₂
        (Changes-HasKey _ changes (write_event_marks encode first s key d₁))
