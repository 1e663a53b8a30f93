-- ===== src/Services/Sessions/Stats.antt =====
-- The statistics and the cleanup of services/SessionRegistry.ts.
use app_intent_system_orches.Base.{
  ℕ, ◌+◌, ◌≤◌, ◌<◌, ◌≡◌, refl, inl, inr, String, List, [], ◌∷◌, length, ltb, ◌==◌, nat_eq, All,
  arith, Bool-cases, if◌then◌else◌,
}
use app_intent_system_orches.Services.Sessions.Client.{SetClient}
use app_intent_system_orches.Services.Sessions.{
  session_prefix, count_sessions, get_session_stats, clean_keys, cleanup_expired_sessions,
}

module _ (client : SetClient) (now : ℕ) where
  -- Counting keys of sets that have members.
  count_sessions_bounds :
      (d : client.Data) (ks : List String) (total multiple : ℕ)
      → All (λ k. 0 < client.scard now d k) ks
      → let (total', multiple') = count_sessions client now d ks (total, multiple) in
        (multiple' ≤ multiple + length ks) × (length ks + multiple' + total ≤ total' + multiple)
  unfolding count_sessions
  count_sessions_bounds d [] total multiple h = (omega arith, omega arith)
  count_sessions_bounds d (k ∷ ks) total multiple h =
      let counted =
        count_sessions_bounds d ks (total + client.scard now d k)
          (if ltb 1 (client.scard now d k) then multiple + 1 else multiple) h.1 in
      ground (arith, counted, h.0)

  -- Sets with members are not cleaned.
  clean_keys_keeps :
      (ks : List String) (n : ℕ) (d : client.Data)
      → All (λ k. 0 < client.scard now d k) ks
      → clean_keys client now ks n d ≡ (n, d)
  unfolding clean_keys
  clean_keys_keeps [] n d h = refl
  clean_keys_keeps (k ∷ ks) n d h = elim (Bool-cases (client.scard now d k == 0)) [
    | inl e ↦ absurd (ground (arith, h.0))
    | inr e ↦ rw (e, clean_keys) (clean_keys_keeps ks n d h.1)
  ]

-- The users with several sessions are some of the active users, and there are at least as many sessions
-- as active users and users with several sessions together.
pub get_session_stats_bounds :
    (client : SetClient) (now : ℕ) (d : client.Data)
    → let stats = get_session_stats client now d in
      (stats.users_with_multiple_sessions ≤ stats.total_active_users)
      × (stats.total_active_users + stats.users_with_multiple_sessions
          ≤ stats.total_active_sessions)
unfolding get_session_stats
get_session_stats_bounds client now d =
    let bounds =
      count_sessions_bounds client now d (client.keys now d session_prefix) 0 0
        (client.keys-nonempty now d session_prefix) in
    ground (arith, bounds)

-- The cleanup finds nothing to remove, since the client lists no set without members.
pub cleanup_expired_sessions_idle :
    (client : SetClient) (now : ℕ) (d : client.Data)
    → cleanup_expired_sessions client now d ≡ (0, d)
unfolding cleanup_expired_sessions
cleanup_expired_sessions_idle client now d =
    clean_keys_keeps client now (client.keys now d session_prefix) 0 d
      (client.keys-nonempty now d session_prefix)
