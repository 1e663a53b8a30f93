-- ===== src/Tests/Events.antt =====
-- The theorems on the event shaper, the poller, the tool executor and templates at concrete inputs.
use app_intent_system_orches.Base.{
  ℕ, suc, ◌≡◌, ◌≢◌, ◌⊎◌, refl, String, true, false, Option, none, some, List, [], ◌∷◌, ◌++◌, ok,
  err, if◌then◌else◌, ◌==◌, string_eq, any, is_some, ℤ, pos, show_nat, arith,
}
use app_intent_system_orches.Js.{
  Value, truthy, object, array, str, num, Fields, fields, get, strict_eq, to_text,
}
use app_intent_system_orches.Cortex.Store.Tables.{Store}
use app_intent_system_orches.Cortex.Shaper.Records.{record_id}
use app_intent_system_orches.Cortex.Shaper.Webhook.{
  Connection, WebhookPayload, handle_webhook, get_user_id, emit_sync, nonempty_text, total_changes,
}
use app_intent_system_orches.Cortex.Shaper.Webhook.Laws.{
  handle_webhook_once, handle_webhook_dropped,
}
use app_intent_system_orches.Cortex.Shaper.Leads.{
  lead_event_type, lead_event, shape_lead, shape_leads, shape_lead_events,
}
use app_intent_system_orches.Cortex.Shaper.Leads.Memory.{
  is_about, is_created, shape_lead_events_forgets,
}
use app_intent_system_orches.Cortex.Shaper.Opportunities.{shape_opportunity_events}
use app_intent_system_orches.Cortex.Shaper.Opportunities.Settling.{
  IsDistinct, shape_opportunity_events_settles,
}
use app_intent_system_orches.Cortex.Poller.Items.{Feed, poll_provider}
use app_intent_system_orches.Cortex.Poller.Items.Synced.{IsSynced, poll_provider_cases}
use app_intent_system_orches.Cortex.Poller.Connections.{PollState, poll_connection}
use app_intent_system_orches.Cortex.Poller.Failures.{
  find_connection, tallied, row_tolerated, poll_ticks, poll_connection_row, poll_ticks_tolerated,
}
use app_intent_system_orches.Tests.Clients.{logged_redis, clock_outside}
use app_intent_system_orches.Tests.Examples.{example_store, encode_id}

abbrev connection : Connection
connection = record {
  id = "1";
  user_id = "ann";
  provider = "google-mail";
  connection_id = "c1";
  enabled = true;
  last_poll_at = none;
  error_count = 10;
  last_error = none;
}

abbrev webhook : WebhookPayload
webhook = record {
  connection_id = "c1";
  model = "GmailEmail";
  sync_name = "emails";
  response_results = object (("added", num (pos 2)) ∷ []);
}

handled :
    (handle_webhook clock_outside encode_id (connection ∷ []) webhook example_store 0).processed ≡ 1
unfolding handle_webhook get_user_id emit_sync get
handled = refl

handle_webhook_once_example :
    handle_webhook clock_outside encode_id
      (connection ∷ [])
      webhook
      (handle_webhook clock_outside encode_id (connection ∷ []) webhook example_store 0).store
      9
    ≡ record {
      processed = 0;
      started = [];
      store =
          (handle_webhook clock_outside encode_id (connection ∷ []) webhook example_store 0).store;
      world = 9;
    }
handle_webhook_once_example =
    handle_webhook_once clock_outside encode_id (connection ∷ []) webhook webhook example_store 0 9
      refl handled

-- The mark of the webhook has expired, its dedupe key has not.
abbrev later_store : Store logged_redis
later_store = record example_store { cache = (("dedupe:c1_GmailEmail", "1") ∷ [], []) }

owned : is_some (nonempty_text (get_user_id (connection ∷ []) "c1" later_store).0) ≡ true
unfolding get_user_id
owned = refl

changed : total_changes webhook ≢ pos 0
unfolding get
changed h = ground arith

handle_webhook_dropped_example :
    let done = handle_webhook clock_outside encode_id (connection ∷ []) webhook later_store 0 in
    (done.processed ≡ 1) × (done.started ≡ []) × (done.store.published ≡ [])
handle_webhook_dropped_example =
    handle_webhook_dropped clock_outside encode_id (connection ∷ []) webhook later_store 0 refl
      owned changed refl

abbrev lead : String → String → Fields
lead id status = fields (("Id", str id) ∷ ("Status", str status) ∷ [])

-- Lead 1 is unchanged and lead 2 is new.
abbrev known_leads : Option Fields
known_leads = some (fields (("1", object (("Status", str "Open") ∷ [])) ∷ []))

abbrev leads : List Fields
leads = lead "1" "Open" ∷ lead "2" "Open" ∷ []

raised : (shape_lead_events clock_outside known_leads leads "ann" 0).events ≢ []
unfolding shape_lead_events shape_leads shape_lead lead_event_type
raised h = ground arith

silent :
    any (is_about "1") (shape_lead_events clock_outside known_leads leads "ann" 0).events ≡ false
unfolding shape_lead_events shape_leads shape_lead lead_event_type lead_event get strict_eq to_text
silent = refl

named : truthy (record_id (lead "1" "Open")) ≡ true
named = refl

id_text : to_text (record_id (lead "1" "Open")) ≡ "1"
unfolding to_text
id_text = refl

shape_lead_events_forgets_example :
    let first = shape_lead_events clock_outside known_leads leads "ann" 0 in
    let second = shape_lead_events clock_outside first.state ([] ++ lead "1" "Open" ∷ []) "ann" 9 in
    any (is_created "1") second.events ≡ true
shape_lead_events_forgets_example =
    shape_lead_events_forgets clock_outside known_leads leads "ann" "1" 0 9 [] [] (lead "1" "Open")
      raised silent named id_text

abbrev opportunities : List Fields
opportunities =
    fields (("Id", str "a") ∷ ("StageName", str "Won") ∷ ("Amount", num (pos 5000)) ∷ [])
    ∷ fields (("Id", str "b") ∷ ("StageName", str "Open") ∷ [])
    ∷ []

distinct : IsDistinct opportunities
unfolding to_text
distinct = ((refl, tt), (tt, tt))

shape_opportunity_events_settles_example :
    let first = shape_opportunity_events clock_outside none opportunities "ann" 0 in
    let second = shape_opportunity_events clock_outside first.state opportunities "ann" 7 in
    (second.events ≡ []) × (second.state ≡ first.state)
shape_opportunity_events_settles_example =
    shape_opportunity_events_settles clock_outside none opportunities "ann" 0 7 distinct
      (refl, (refl, tt))

-- The provider has one item, made at 12, and the processor of events does not throw.
abbrev one_item : Value
one_item = array (object (("id", str "m1") ∷ ("created_at", num (pos 12)) ∷ []) ∷ [])

abbrev date : Value → Option ℕ
date (num (ℤ.pos n)) = some n
date _ = none

abbrev provider_feed : Feed
provider_feed = record {
  World = ℕ;
  now = λ w. (w, suc w);
  iso = show_nat;
  date_of = date;
  fetch_data = λ id resource w.
      if id == "c1" then (ok one_item, suc w) else (err "no such connection", suc w);
  process = λ e w. (none, suc w);
}

poll_provider_cases_example :
    let polled = poll_provider provider_feed "ann" "google-mail" "c1" [] 100 in
    ((polled.thrown ≢ none) × (polled.sync ≡ []))
    ⊎ ((polled.thrown ≡ none)
        × IsSynced provider_feed "ann" "google-mail" "c1" "emails" [] 100 polled)
poll_provider_cases_example = poll_provider_cases provider_feed "ann" "google-mail" "c1" [] 100 refl

-- The eleventh error of a connection that the provider does not know.
abbrev poll_state : PollState provider_feed
poll_state = record {
  connections = record connection { connection_id = "gone" } ∷ [];
  sync = [];
  world = 100;
}

poll_connection_row_example :
    let polled = poll_provider provider_feed "ann" "google-mail" "gone" [] 100 in
    find_connection "1"
      (poll_connection provider_feed 7
        (record connection { connection_id = "gone" })
        poll_state).connections
    ≡ some (tallied 7 polled.thrown (record connection { connection_id = "gone" }))
poll_connection_row_example =
    poll_connection_row provider_feed 7 (record connection { connection_id = "gone" }) poll_state
      "1"

poll_ticks_tolerated_example :
    row_tolerated
      (find_connection "1" (poll_ticks provider_feed (7 ∷ 8 ∷ []) poll_state).connections)
    ≡ true
poll_ticks_tolerated_example = poll_ticks_tolerated provider_feed (7 ∷ 8 ∷ []) poll_state "1" refl
