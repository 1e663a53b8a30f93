-- ===== src/Cortex/Poller/Items/Synced.antt =====
-- How cortex/poller.ts pollProvider ends, and the time of the sync that it stores.
use app_intent_system_orches.Base.{
  ◌≡◌, ◌≢◌, refl, ap, ◌⊎◌, inl, inr, String, none, some, List, ◌∷◌, ok, Option-cases, Result-cases,
  string_eq, lookup_text,
}
use app_intent_system_orches.Js.{Value}
use app_intent_system_orches.Cortex.Poller.Items.{
  PolledEvent, Feed, Polled, SyncTimes, process_all, clock_if_new, last_sync_time, events_of,
  finish_poll, poll_provider, provider_resources, sync_key,
}

-- How a poll ends that found these events.
finish_poll_cases :
    (feed : Feed) (key : String) (events : List PolledEvent) (sync : SyncTimes) (w : feed.World)
    → let polled = finish_poll feed key events sync w in
      ((polled.thrown ≢ none) × (polled.sync ≡ sync))
      ⊎ ((polled.thrown ≡ none)
          × ((w' : feed.World) × (process_all feed events w ≡ (none, w'))
              × (polled.sync ≡ (key, (feed.now w').0) ∷ sync)
              × (polled.world ≡ (feed.now w').1)))
unfolding finish_poll
finish_poll_cases feed key events sync w =
    let (thrown, w₁) = process_all feed events w in
    elim (Option-cases thrown) [
      | inl e ↦ inr (
        rw (e, finish_poll) refl,
        (w₁, ap (λ t. (t, w₁)) e, rw (e, finish_poll) refl, rw (e, finish_poll) refl),
      )
      | inr (m, e) ↦ inl (rw (e, finish_poll) (λ h. cc), rw (e, finish_poll) refl)
    ]

module _ (feed : Feed) (user_id provider connection_id resource : String) (sync : SyncTimes)
    (w : feed.World) where
  -- The poll succeeded: the provider gave data, all events made of it were processed one after the
  -- other, and then the clock gave the time that is stored.
  pub record IsSynced (polled : Polled feed) : Type 0 where
    pub data_value : Value
    pub events : List PolledEvent
    pub found_in : feed.World
    pub processed_in : feed.World
    pub fetched :
        (feed.fetch_data connection_id resource
          (clock_if_new feed (sync_key provider user_id) sync w).1).0
        ≡ ok data_value
    pub found :
        (let key = sync_key provider user_id in
          let (time, w₁) = clock_if_new feed key sync w in
          let w₂ = (feed.fetch_data connection_id resource w₁).1 in
          events_of feed provider user_id (last_sync_time feed key time sync) data_value w₂)
        ≡ (ok events, found_in)
    pub processed : process_all feed events found_in ≡ (none, processed_in)
    pub stored : polled.sync ≡ (sync_key provider user_id, (feed.now processed_in).0) ∷ sync
    pub left : polled.world ≡ (feed.now processed_in).1

-- A poll that throws leaves the times of the last sync as they are, so that its items are read again.
-- A poll that does not, of a provider that is known, got the provider's data, had every event that it
-- made of them processed without an error, and stores for the user and the provider the time that the
-- clock gives after the last of them was processed.
pub poll_provider_cases :
    (feed : Feed) (user_id provider connection_id : String) (sync : SyncTimes) (w : feed.World)
    {resource : String}
    → lookup_text provider provider_resources ≡ some resource
    → let polled = poll_provider feed user_id provider connection_id sync w in
      ((polled.thrown ≢ none) × (polled.sync ≡ sync))
      ⊎ ((polled.thrown ≡ none)
          × IsSynced feed user_id provider connection_id resource sync w polled)
unfolding poll_provider
poll_provider_cases feed user_id provider connection_id sync w {resource} known =
    let key = sync_key provider user_id in
    let (time, w₁) = clock_if_new feed key sync w in
    let (reply, w₂) = feed.fetch_data connection_id resource w₁ in
    elim (Result-cases reply) [
      | inr (m, e) ↦
          inl (rw (known, poll_provider) (rw e (λ h. cc)), rw (known, poll_provider) (rw e refl))
      | inl (v, e) ↦
          let (found, w₃) =
            events_of feed provider user_id (last_sync_time feed key time sync) v w₂ in
          elim (Result-cases found) [
            | inr (m, f) ↦ inl (
              rw (known, poll_provider) (rw e (rw f (λ h. cc))),
              rw (known, poll_provider) (rw e (rw f refl)),
            )
            | inl (events, f) ↦ elim (finish_poll_cases feed key events sync w₃) [
              | inl failed ↦ inl (rw (known, poll_provider) (rw e (rw f failed)))
              | inr (fine, (w', processed, stored, left)) ↦ inr (
                rw (known, poll_provider) (rw e (rw f fine)),
                record {
                  data_value = v;
                  events = events;
                  found_in = w₃;
                  processed_in = w';
                  fetched = e;
                  found = ap (λ r. (r, w₃)) f;
                  processed = processed;
                  stored = rw (known, poll_provider) (rw e (rw f stored));
                  left = rw (known, poll_provider) (rw e (rw f left));
                },
              )
            ]
          ]
    ]
