-- ===== src/Cortex/Poller/Connections.antt =====
-- cortex/poller.ts: poll, on the rows of the table of connections, whose primary key is `id`.
use app_intent_system_orches.Base.{
  ℕ, ◌+◌, String, Bool, false, Option, none, some, List, [], ◌∷◌, keep, ltb, ◌==◌, string_eq,
  if◌then◌else◌,
}
use app_intent_system_orches.Cortex.Shaper.Webhook.{Connection}
use app_intent_system_orches.Cortex.Poller.Items.{Feed, SyncTimes, poll_provider}

abbrev pub is_connection : String → Connection → Bool
is_connection id c = c.id == id

-- UPDATE connections SET … WHERE id = …
abbrev pub update_connection :
    String → (Connection → Connection) → List Connection → List Connection
update_connection id f [] = []
update_connection id f (c ∷ cs) =
    (if is_connection id c then f c else c) ∷ update_connection id f cs

-- SELECT error_count FROM connections WHERE id = …, with `result[0]?.error_count`
abbrev pub error_count_of : String → List Connection → Option ℕ
error_count_of id [] = none
error_count_of id (c ∷ cs) = if is_connection id c then some c.error_count else error_count_of id cs

abbrev pub too_many : Option ℕ → Bool
too_many none = false
too_many (some n) = ltb 10 n

-- The statement after a poll that returned, at the time NOW().
unfoldable pub note_success : (time : ℕ) → Connection → List Connection → List Connection
note_success time conn rows =
    update_connection conn.id
      (λ c. record c { last_poll_at = some time; error_count = 0; last_error = none }) rows

-- The statements after a poll that threw: a connection is disabled behind its tenth error.
unfoldable pub note_failure : String → Connection → List Connection → List Connection
note_failure message conn rows =
    let rows' =
      update_connection conn.id
        (λ c. record c { error_count = c.error_count + 1; last_error = some message }) rows in
    if too_many (error_count_of conn.id rows')
    then update_connection conn.id (λ c. record c { enabled = false }) rows'
    else rows'

-- The tables, the times of the last sync and the outside.
pub record PollState (feed : Feed) : Type 0 where
  pub connections : List Connection
  pub sync : SyncTimes
  pub world : feed.World

module _ (feed : Feed) where
  -- `db_time` is NOW() of the database.
  unfoldable pub poll_connection : (db_time : ℕ) → Connection → PollState feed → PollState feed
  unfolding poll_provider note_success note_failure
  poll_connection db_time conn x =
      let polled =
        poll_provider feed conn.user_id conn.provider conn.connection_id x.sync x.world in
      record {
        connections = elim polled.thrown [
          | none ↦ note_success db_time conn x.connections
          | some m ↦ note_failure m conn x.connections
        ];
        sync = polled.sync;
        world = polled.world;
      }

  unfoldable pub poll_connections :
      (db_time : ℕ) → List Connection → PollState feed → PollState feed
  poll_connections db_time [] x = x
  poll_connections db_time (conn ∷ conns) x =
      poll_connections db_time conns (poll_connection db_time conn x)

  -- One tick: the connections that are enabled when it starts are polled, one after the other.
  unfoldable pub poll : (db_time : ℕ) → PollState feed → PollState feed
  unfolding poll_connections
  poll db_time x = poll_connections db_time (keep (λ c. c.enabled) x.connections) x
