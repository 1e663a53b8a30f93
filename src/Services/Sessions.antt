-- ===== src/Services/Sessions.antt =====
-- services/SessionRegistry.ts: the active sessions of the users. The client of Redis does not fail
-- here, and a method runs at one time.
pub mod Client
pub mod Membership
pub mod Stats
use app_intent_system_orches.Base.{
  ℕ, suc, ◌+◌, String, Bool, true, false, List, [], ◌∷◌, length, ltb, concat, ◌==◌, nat_eq,
  if◌then◌else◌,
}
use app_intent_system_orches.Services.Sessions.Client.{SetClient}

abbrev pub session_prefix : String
session_prefix = "active_sessions:"

-- SESSION_TTL, in seconds
abbrev pub session_ttl : ℕ
session_ttl = 7200

abbrev pub session_key : String → String
session_key user_id = concat (session_prefix ∷ user_id ∷ [])

pub record SessionStats : Type 0 where
  pub total_active_users : ℕ
  pub total_active_sessions : ℕ
  pub users_with_multiple_sessions : ℕ

-- `now` is the time at which a method runs.
module _ (client : SetClient) (now : ℕ) where
  open client use {Data, sadd, expire, srem, scard, smembers, del, keys}

  unfoldable pub register_user_session : String → String → Data → Data
  register_user_session user_id session_id d =
      expire now (sadd now d (session_key user_id) session_id) (session_key user_id) session_ttl

  unfoldable pub get_active_sessions_for_user : String → Data → List String
  get_active_sessions_for_user user_id d = smembers now d (session_key user_id)

  unfoldable pub unregister_user_session : String → String → Data → Data
  unregister_user_session user_id session_id d =
      let d' = srem now d (session_key user_id) session_id in
      if scard now d' (session_key user_id) == 0 then del d' (session_key user_id) else d'

  unfoldable pub has_active_sessions : String → Data → Bool
  has_active_sessions user_id d = ltb 0 (scard now d (session_key user_id))

  -- The loop of getSessionStats: the sessions and the users with several, so far.
  unfoldable pub count_sessions : Data → List String → ℕ × ℕ → ℕ × ℕ
  count_sessions d [] (total, multiple) = (total, multiple)
  count_sessions d (k ∷ ks) (total, multiple) =
      let count = scard now d k in
      count_sessions d ks (total + count, (if ltb 1 count then multiple + 1 else multiple))

  unfoldable pub get_session_stats : Data → SessionStats
  unfolding count_sessions
  get_session_stats d =
      let ks = keys now d session_prefix in
      let (total, multiple) = count_sessions d ks (0, 0) in
      record {
        total_active_users = length ks;
        total_active_sessions = total;
        users_with_multiple_sessions = multiple;
      }

  -- The loop of cleanupExpiredSessions, with the number of keys removed so far.
  unfoldable pub clean_keys : List String → ℕ → Data → ℕ × Data
  clean_keys [] cleaned d = (cleaned, d)
  clean_keys (k ∷ ks) cleaned d =
      let (cleaned', d') = if scard now d k == 0 then (cleaned + 1, del d k) else (cleaned, d) in
      clean_keys ks cleaned' d'

  unfoldable pub cleanup_expired_sessions : Data → ℕ × Data
  unfolding clean_keys
  cleanup_expired_sessions d = clean_keys (keys now d session_prefix) 0 d
