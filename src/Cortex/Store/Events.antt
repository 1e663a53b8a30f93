-- ===== src/Cortex/Store/Events.antt =====
-- cortex/store.ts: the methods on events. `encode` is `JSON.stringify` of an event; only the stored
-- text matters here.
use app_intent_system_orches.Base.{
  String, Bool, true, false, Option, none, some, [], ◌∷◌, ◌++◌, is_some, is_empty, concat,
  if◌then◌else◌,
}
use app_intent_system_orches.Cortex.Types.{Event}
use app_intent_system_orches.Cortex.Redis.{Redis}
use app_intent_system_orches.Cortex.Store.Tables.{Store}

abbrev pub dedupe_name : String → String
dedupe_name key = concat ("dedupe:" ∷ key ∷ [])

abbrev pub event_name : String → String
event_name id = concat ("event:" ∷ id ∷ [])

-- if (dedupe): a missing key and the empty text count as none
abbrev pub dedupe_of : Option String → Option String
dedupe_of none = none
dedupe_of (some key) = if is_empty key then none else some key

module _ {redis : Redis} (encode : Event → String) where
  -- The event is stored and published.
  abbrev pub deliver : Event → Store redis → Store redis
  deliver event s = record s {
    cache = redis.set s.cache (event_name event.id) (encode event);
    published = s.published ++ (concat ("events:" ∷ event.user_id ∷ []), encode event) ∷ [];
  }

  unfoldable pub write_event : Event → Store redis → Store redis × Bool
  write_event event s = elim (dedupe_of event.dedupe_key) [
    | none ↦ (deliver event s, true)
    | some key ↦
        if is_some (redis.get s.cache (dedupe_name key))
        then (s, false)
        else (deliver event (record s { cache = redis.set s.cache (dedupe_name key) "1" }), true)
  ]
