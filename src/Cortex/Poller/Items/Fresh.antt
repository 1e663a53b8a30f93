-- ===== src/Cortex/Poller/Items/Fresh.antt =====
-- Which events cortex/poller.ts pollProvider makes of the items of a provider.
use app_intent_system_orches.Base.{
  ℕ, ◌≤◌, ◌<◌, ◌≡◌, String, true, false, Option, none, some, List, [], ◌∷◌, ◌++◌, string_eq,
}
use app_intent_system_orches.Js.{Value, Items, nil, cons, str, get, truthy}
use app_intent_system_orches.Cortex.Poller.Items.{PolledEvent, Feed}
use app_intent_system_orches.Cortex.Poller.Items.Rules.{Rule, type_by}

-- The date is after a time, or there is none.
abbrev pub IsAfter : ℕ → Option ℕ → Type 0
IsAfter last_sync none = Unit {0}
IsAfter last_sync (some t) = last_sync < t

module _ (feed : Feed) (provider user_id : String) (last_sync : ℕ)
    (table : String × List Rule) where
  -- The time of an item: when it was created, else when it was updated, else a time of the clock.
  pub data IsTimeOf (item : Value) : Value → Type 0 where
    created : truthy (get "created_at" item) ≡ true → IsTimeOf item (get "created_at" item)
    updated :
        truthy (get "created_at" item) ≡ false
        → truthy (get "updated_at" item) ≡ true
        → IsTimeOf item (get "updated_at" item)
    undated :
        (now : ℕ)
        → truthy (get "created_at" item) ≡ false
        → truthy (get "updated_at" item) ≡ false
        → IsTimeOf item (str (feed.iso now))

  -- The event that an item raises at its time.
  pub record IsEventOf (item : Value) (e : PolledEvent) : Type 0 where
    pub newer : IsAfter last_sync (feed.date_of e.timestamp)
    pub timed : IsTimeOf item e.timestamp
    pub of_user : e.user_id ≡ user_id
    pub of_source : e.source ≡ table.0
    pub typed : e.event ≡ type_by table.1 item
    pub of_item : e.payload ≡ item

  -- The items, in order, each raise their event or have a date at or before the last sync.
  pub data AreEventsOf : Items → List PolledEvent → Type 0 where
    all_read : AreEventsOf nil []
    passes :
        {item : Value} {rest : Items} {es : List PolledEvent} (time : Value) (t : ℕ)
        → IsTimeOf item time
        → feed.date_of time ≡ some t
        → t ≤ last_sync
        → AreEventsOf rest es
        → AreEventsOf (cons item rest) es
    raises :
        {item : Value} {rest : Items} {es : List PolledEvent} (e : PolledEvent)
        → IsEventOf item e
        → AreEventsOf rest es
        → AreEventsOf (cons item rest) (e ∷ es)

  -- What the loop adds to the events that it was given.
  abbrev Adds : Items → List PolledEvent → List PolledEvent → Type 0
  Adds vs before after = (es : List PolledEvent) × (after ≡ before ++ es) × AreEventsOf vs es
