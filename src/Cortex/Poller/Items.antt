-- ===== src/Cortex/Poller/Items.antt =====
-- cortex/poller.ts: pollProvider. The state that it keeps in Redis under `poller:provider:user` is the
-- time of the last sync in milliseconds, which the source writes as the text of that date.
pub mod Rules
pub mod Fresh
pub mod Synced
use app_intent_system_orches.Base.{
  ℕ, ◌+◌, ◌-◌, String, Bool, true, false, not, ◌&&◌, Option, none, some, List, [], ◌∷◌, ◌++◌, ◌==◌,
  string_eq, leb, concat, show_nat, lookup_text, includes, Result, ok, err, if◌then◌else◌,
}
use app_intent_system_orches.Js.{
  Value, undefined, null, str, arr, Items, nil, cons, get, truthy, strict_eq, to_text,
}

-- The event of an item: its timestamp is what the provider gave, or the time of the poll.
pub record PolledEvent : Type 0 where
  pub id : String
  pub source : String
  pub event : String
  pub timestamp : Value
  pub user_id : String
  pub payload : Value
  pub dedupe_key : String

-- What the poller asks of the outside: the clock, the text of a date and the date of a value
-- (`new Date(v).getTime()`, nothing if it is no date), the provider's data through Nango, and the
-- processor of events.
pub record Feed : Type 1 where
  pub World : Type 0
  pub now : World → ℕ × World
  pub iso : ℕ → String
  pub date_of : Value → Option ℕ
  pub fetch_data : String → String → World → Result Value × World
  pub process : PolledEvent → World → Option String × World

abbrev pub salesforce_keys : List String
salesforce_keys = "salesforce-ybzg" ∷ "salesforce-2" ∷ "salesforce" ∷ []

-- The resource of each provider that is known.
abbrev pub provider_resources : List (String × String)
provider_resources =
    ("google-mail", "emails")
    ∷ ("google-calendar", "events")
    ∷ ("salesforce-ybzg", "leads")
    ∷ ("salesforce-2", "leads")
    ∷ ("salesforce", "leads")
    ∷ []

unfoldable pub detect_gmail_event : Value → String
detect_gmail_event item =
    if truthy (get "from_me" item)
    then "email_sent"
    else if truthy (get "in_reply_to" item)
    then "email_reply_received"
    else "email_received"

-- item[a] !== item[b]
abbrev differ : String → String → Value → Bool
differ a b item = not (strict_eq (get a item) (get b item))

abbrev is_text : String → Value → Bool
is_text s v = strict_eq v (str s)

unfoldable pub detect_salesforce_event : Value → String
unfolding get strict_eq
detect_salesforce_event item =
    if is_text "Lead" (get "type" item)
    then (if truthy (get "is_converted" item)
        then "lead_converted"
        else if differ "previous_stage" "stage" item
        then "lead_stage_changed"
        else "lead_created")
    else if is_text "Opportunity" (get "type" item)
    then (if truthy (get "is_closed" item) && truthy (get "is_won" item)
        then "opportunity_closed_won"
        else if truthy (get "is_closed" item)
        then "opportunity_closed_lost"
        else if differ "previous_amount" "amount" item
        then "opportunity_amount_changed"
        else if differ "previous_stage" "stage" item
        then "opportunity_stage_changed"
        else "opportunity_created")
    else "unknown"

unfoldable pub map_provider_source : String → String
map_provider_source provider =
    if provider == "google-mail"
    then "gmail"
    else if provider == "google-calendar"
    then "google-calendar"
    else if includes salesforce_keys provider
    then "salesforce"
    else "gmail"

unfoldable pub event_type : String → Value → String
unfolding detect_gmail_event detect_salesforce_event
event_type provider item =
    if provider == "google-mail"
    then detect_gmail_event item
    else if provider == "google-calendar"
    then (if is_text "cancelled" (get "status" item)
        then "event_deleted"
        else if differ "updated_at" "created_at" item
        then "event_updated"
        else "event_created")
    else if includes salesforce_keys provider
    then detect_salesforce_event item
    else "unknown"

abbrev pub is_missing : Value → Bool
is_missing undefined = true
is_missing null = true
is_missing _ = false

abbrev pub sync_key : String → String → String
sync_key provider user_id = concat ("poller:" ∷ provider ∷ ":" ∷ user_id ∷ [])

-- The times of the last sync, by key.
abbrev pub SyncTimes : Type 0
SyncTimes = List (String × ℕ)

-- What a method leaves behind, and the message if it throws.
pub record Polled (feed : Feed) : Type 0 where
  pub thrown : Option String
  pub sync : SyncTimes
  pub world : feed.World

module _ (feed : Feed) where
  open feed use {World, now, iso, date_of, fetch_data, process}

  -- item.created_at || item.updated_at || new Date().toISOString()
  unfoldable pub item_time : Value → World → Value × World
  item_time item w =
      let (time, w') = now w in
      if truthy (get "created_at" item)
      then (get "created_at" item, w)
      else if truthy (get "updated_at" item)
      then (get "updated_at" item, w)
      else (str (iso time), w')

  -- new Date(itemTime) <= new Date(lastSyncTime), which is false if the former is no date
  abbrev pub is_old : Value → ℕ → Bool
  is_old time last_sync = elim (date_of time) [ none ↦ false | some t ↦ leb t last_sync ]

  unfoldable pub item_event : String → String → Value → Value → (stamp : ℕ) → PolledEvent
  unfolding event_type map_provider_source to_text get
  item_event provider user_id item time stamp = record {
    id = concat (provider ∷ "_" ∷ to_text (get "id" item) ∷ "_" ∷ show_nat stamp ∷ []);
    source = map_provider_source provider;
    event = event_type provider item;
    timestamp = time;
    user_id = user_id;
    payload = item;
    dedupe_key = concat (provider ∷ ":" ∷ to_text (get "id" item) ∷ ":" ∷ to_text time ∷ []);
  }

  -- The loop over the items: the new events so far, or the error of an item that is missing.
  unfoldable pub new_events :
      String → String → ℕ → Items → List PolledEvent → World → Result (List PolledEvent) × World
  unfolding item_time item_event
  new_events provider user_id last_sync nil events w = (ok events, w)
  new_events provider user_id last_sync (cons item rest) events w =
      let (time, w₁) = item_time item w in
      let (stamp, w₂) = now w₁ in
      let (events', w') =
        if is_old time last_sync
        then (events, w₁)
        else (events ++ item_event provider user_id item time stamp ∷ [], w₂) in
      let others = new_events provider user_id last_sync rest events' w' in
      if is_missing item then (err "Cannot read properties of null or undefined", w) else others

  abbrev pub events_of : String → String → ℕ → Value → World → Result (List PolledEvent) × World
  events_of provider user_id last_sync (arr items) w =
      new_events provider user_id last_sync items [] w
  events_of provider user_id last_sync _ w = (ok [], w)

  -- The events are processed in order, up to the first at which the processor throws.
  unfoldable pub process_all : List PolledEvent → World → Option String × World
  process_all [] w = (none, w)
  process_all (e ∷ es) w =
      let (thrown, w') = process e w in
      elim thrown [ some m ↦ (some m, w') | none ↦ process_all es w' ]

  -- The time of the last sync, or an hour ago.
  abbrev pub last_sync_time : String → ℕ → SyncTimes → ℕ
  last_sync_time key time sync = elim (lookup_text key sync) [ none ↦ time - 3600000 | some t ↦ t ]

  -- The clock is asked only if there was no sync.
  abbrev pub clock_if_new : String → SyncTimes → World → ℕ × World
  clock_if_new key sync w = elim (lookup_text key sync) [ none ↦ now w | some t ↦ (t, w) ]

  -- The new events were found; they are processed, and the time of the sync is stored.
  unfoldable pub finish_poll : String → List PolledEvent → SyncTimes → World → Polled feed
  unfolding process_all
  finish_poll key events sync w =
      let (thrown, w₁) = process_all events w in
      let (time, w₂) = now w₁ in
      elim thrown [
        | some m ↦ record { thrown = some m; sync = sync; world = w₁ }
        | none ↦ record { thrown = none; sync = (key, time) ∷ sync; world = w₂ }
      ]

  unfoldable pub poll_provider : String → String → String → SyncTimes → World → Polled feed
  unfolding new_events finish_poll
  poll_provider user_id provider connection_id sync w =
      let key = sync_key provider user_id in
      elim (lookup_text provider provider_resources) [
        | none ↦ record { thrown = none; sync = sync; world = w }
        | some resource ↦
            let (time, w₁) = clock_if_new key sync w in
            let (reply, w₂) = fetch_data connection_id resource w₁ in
            elim reply [
              | err m ↦ record { thrown = some m; sync = sync; world = w₂ }
              | ok data_value ↦
                  let (found, w₃) =
                    events_of provider user_id (last_sync_time key time sync) data_value w₂ in
                  elim found [
                    | err m ↦ record { thrown = some m; sync = sync; world = w₃ }
                    | ok events ↦ finish_poll key events sync w₃
                  ]
            ]
      ]
