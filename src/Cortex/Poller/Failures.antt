-- ===== src/Cortex/Poller/Failures.antt =====
-- How cortex/poller.ts counts the failures of a connection.
use app_intent_system_orches.Base.{
  ℕ, ◌+◌, ◌≡◌, refl, inl, inr, String, Bool, true, false, not, ◌||◌, Option, none, some, List, [],
  ◌∷◌, keep, ltb, leb, ◌==◌, string_eq, eq_refl, eq_iff, if◌then◌else◌, arith, Bool-cases,
  Option-cases,
}
use app_intent_system_orches.Cortex.Shaper.Webhook.{Connection}
use app_intent_system_orches.Cortex.Poller.Items.{Feed, poll_provider}
use app_intent_system_orches.Cortex.Poller.Connections.{
  is_connection, update_connection, error_count_of, note_success, note_failure, PollState,
  poll_connection, poll_connections, poll,
}

-- The row with the id.
abbrev pub find_connection : String → List Connection → Option Connection
find_connection id [] = none
find_connection id (c ∷ cs) = if is_connection id c then some c else find_connection id cs

abbrev pub map_row : (Connection → Connection) → Option Connection → Option Connection
map_row f none = none
map_row f (some c) = some (f c)

-- An update that keeps the ids changes the row with the id, and no other.
find-update :
    (id j : String) (f : Connection → Connection) (rows : List Connection)
    → ((c : Connection) → (f c).id ≡ c.id)
    → find_connection j (update_connection id f rows)
      ≡ (if id == j then map_row f (find_connection j rows) else find_connection j rows)
find-update id j f [] h = ground arith
find-update id j f (c ∷ cs) h =
    ground (arith, find-update id j f cs h, eq_iff c.id id, eq_iff c.id j, eq_iff id j, h c)

-- A row after a poll of its connection returned (no message) or threw.
abbrev pub tallied : (db_time : ℕ) → Option String → Connection → Connection
tallied db_time none c = record c {
  last_poll_at = some db_time;
  error_count = 0;
  last_error = none;
}
tallied db_time (some m) c = record c {
  error_count = c.error_count + 1;
  last_error = some m;
  enabled = if ltb 10 (c.error_count + 1) then false else c.enabled;
}

error_count_of-find :
    (id : String) (rows : List Connection)
    → error_count_of id rows
      ≡ elim (find_connection id rows) [ none ↦ none | some c ↦ some c.error_count ]
error_count_of-find id [] = refl
error_count_of-find id (c ∷ cs) = ground (arith, error_count_of-find id cs)

row_after_failure :
    (m : String) (conn : Connection) (rows : List Connection) (db_time : ℕ) (j : String)
    → find_connection j (note_failure m conn rows) ≡ (
        if conn.id == j
        then map_row (tallied db_time (some m)) (find_connection j rows)
        else find_connection j rows)
unfolding note_failure
row_after_failure m conn rows db_time j =
    let f : Connection → Connection =
      λ c. record c { error_count = c.error_count + 1; last_error = some m } in
    let g : Connection → Connection = λ c. record c { enabled = false } in
    ground (
      arith,
      find-update conn.id j f rows (λ c. refl),
      find-update conn.id j g (update_connection conn.id f rows) (λ c. refl),
      find-update conn.id conn.id f rows (λ c. refl),
      error_count_of-find conn.id (update_connection conn.id f rows),
      eq_iff conn.id j,
      eq_refl conn.id,
    )

row_after_success :
    (conn : Connection) (rows : List Connection) (db_time : ℕ) (j : String)
    → find_connection j (note_success db_time conn rows) ≡ (
        if conn.id == j
        then map_row (tallied db_time none) (find_connection j rows)
        else find_connection j rows)
unfolding note_success
row_after_success conn rows db_time j = find-update conn.id j _ rows (λ c. refl)

-- The poll of one connection counts its outcome in the row of the connection: a poll that returned
-- resets the count of errors, and one that threw adds to it and disables the connection if the count
-- exceeds ten. It changes no other row.
pub poll_connection_row :
    (feed : Feed) (db_time : ℕ) (conn : Connection) (x : PollState feed) (j : String)
    → let polled =
        poll_provider feed conn.user_id conn.provider conn.connection_id x.sync x.world in
      find_connection j (poll_connection feed db_time conn x).connections ≡ (
        if conn.id == j
        then map_row (tallied db_time polled.thrown) (find_connection j x.connections)
        else find_connection j x.connections)
unfolding poll_connection
poll_connection_row feed db_time conn x j =
    let polled = poll_provider feed conn.user_id conn.provider conn.connection_id x.sync x.world in
    elim (Option-cases polled.thrown) [
      | inl e ↦ rw (e, poll_connection) (row_after_success conn x.connections db_time j)
      | inr (m, e) ↦ rw (e, poll_connection) (row_after_failure m conn x.connections db_time j)
    ]

-- The connection is disabled, or has failed at most ten times in a row.
abbrev pub is_tolerated : Connection → Bool
is_tolerated c = not c.enabled || leb c.error_count 10

abbrev pub row_tolerated : Option Connection → Bool
row_tolerated none = true
row_tolerated (some c) = is_tolerated c

module _ (feed : Feed) (db_time : ℕ) (j : String) where
  poll_connection_tolerated :
      (conn : Connection) (x : PollState feed)
      → row_tolerated (find_connection j x.connections) ≡ true
      → row_tolerated (find_connection j (poll_connection feed db_time conn x).connections) ≡ true
  poll_connection_tolerated conn x h =
      let polled =
        poll_provider feed conn.user_id conn.provider conn.connection_id x.sync x.world in
      rw (poll_connection_row feed db_time conn x j) (elim (Bool-cases (conn.id == j)) [
        | inr e ↦ rw e h
        | inl e ↦ rw e (elim (Option-cases (find_connection j x.connections)) [
          | inl f ↦ rw f refl
          | inr (c, f) ↦ rw f (elim (Option-cases polled.thrown) [
            | inl g ↦ rw g (ground arith)
            | inr (m, g) ↦ rw g (ground arith)
          ])
        ])
      ])

  poll_connections_tolerated :
      (conns : List Connection) (x : PollState feed)
      → row_tolerated (find_connection j x.connections) ≡ true
      → row_tolerated (find_connection j (poll_connections feed db_time conns x).connections) ≡ true
  unfolding poll_connections
  poll_connections_tolerated [] x h = h
  poll_connections_tolerated (conn ∷ conns) x h =
      poll_connections_tolerated conns (poll_connection feed db_time conn x)
        (poll_connection_tolerated conn x h)

-- Ticks one after the other, each with its time of the database.
unfoldable pub poll_ticks : (feed : Feed) → List ℕ → PollState feed → PollState feed
poll_ticks feed [] x = x
poll_ticks feed (t ∷ ts) x = poll_ticks feed ts (poll feed t x)

-- However many ticks pass and whatever the providers answer, a connection that is disabled or counts at
-- most ten errors is so after the last tick: none is left enabled with more than ten.
pub poll_ticks_tolerated :
    (feed : Feed) (ts : List ℕ) (x : PollState feed) (j : String)
    → row_tolerated (find_connection j x.connections) ≡ true
    → row_tolerated (find_connection j (poll_ticks feed ts x).connections) ≡ true
unfolding poll_ticks poll
poll_ticks_tolerated feed [] x j h = h
poll_ticks_tolerated feed (t ∷ ts) x j h =
    poll_ticks_tolerated feed ts (poll feed t x) j
      (poll_connections_tolerated feed t j (keep (λ c. c.enabled) x.connections) x h)
