-- ===== src/Services/Sessions/Membership.antt =====
-- Which sessions services/SessionRegistry.ts holds for a user.
use app_intent_system_orches.Base.{
  ℕ, ◌+◌, ◌≤◌, ltb, ◌≡◌, refl, ap, sym, ◌∙◌, inl, inr, String, Bool, true, false, not, ◌&&◌, ◌||◌,
  Option, none, some, List, [], ◌∷◌, length, includes, ◌==◌, string_eq, nat_eq, eq_iff, arith,
  Bool-cases, if◌then◌else◌,
}
use app_intent_system_orches.Services.Sessions.Client.{SetClient}
use app_intent_system_orches.Services.Sessions.{
  session_key, register_user_session, unregister_user_session, get_active_sessions_for_user,
}

-- A session of a user connects, or disconnects, at a time.
pub data SessionEvent : Type 0 where
  connects disconnects : (now : ℕ) → (user_id session_id : String) → SessionEvent

-- The events follow each other in time, from one time to another.
abbrev pub IsOrdered : ℕ → List SessionEvent → ℕ → Type 0
IsOrdered first [] last = first ≤ last
IsOrdered first (connects now u s ∷ es) last = (first ≤ now) × IsOrdered now es last
IsOrdered first (disconnects now u s ∷ es) last = (first ≤ now) × IsOrdered now es last

module _ (client : SetClient) where
  abbrev pub follow_event : SessionEvent → client.Data → client.Data
  follow_event (connects now u s) d = register_user_session client now u s d
  follow_event (disconnects now u s) d = unregister_user_session client now u s d

  -- The events in order.
  abbrev pub follow_events : List SessionEvent → client.Data → client.Data
  follow_events [] d = d
  follow_events (e ∷ es) d = follow_events es (follow_event e d)

-- Whether what lasts until a time is there.
abbrev pub lasts : ℕ → Option ℕ → Bool
lasts t none = false
lasts t (some until) = ltb t until

-- Until when a session is active, given until when it was before: it is active for two hours from when
-- it connects; whenever another session of its user connects meanwhile, it is active for two hours from
-- then; and it is active no more when it disconnects.
abbrev pub active_until : (key session_id : String) → List SessionEvent → Option ℕ → Option ℕ
active_until k s [] before = before
active_until k s (connects now u t ∷ es) before = active_until k s es (
    if session_key u == k
    then (if t == s || lasts now before then some (now + 7200000) else none)
    else before)
active_until k s (disconnects now u t ∷ es) before =
    active_until k s es (if session_key u == k && t == s then none else before)

module _ (client : SetClient) (k s : String) where
  -- From a time on, the session is in the set exactly until the other time.
  abbrev Holds : ℕ → Option ℕ → client.Data → Type 0
  Holds now until d = (t : ℕ) → now ≤ t → includes (client.smembers t d k) s ≡ lasts t until

  register_other :
      (now : ℕ) (u m : String) (d : client.Data) (t : ℕ)
      → (session_key u == k) ≡ false
      → client.smembers t (register_user_session client now u m d) k ≡ client.smembers t d k
  unfolding register_user_session
  register_other now u m d t other =
      client.expire_other t now (client.sadd now d (session_key u) m) (session_key u) 7200 k other
      ∙ client.sadd_other t now d (session_key u) m k other

  includes_while :
      (b : Bool) (ms : List String) → includes (if b then ms else []) s ≡ (b && includes ms s)
  includes_while true ms = refl
  includes_while false ms = refl

  lasts_while :
      (b : Bool) (t until : ℕ) → (ltb t until && b) ≡ lasts t (if b then some until else none)
  lasts_while true t until = ground arith
  lasts_while false t until = ground arith

  register_same :
      (now : ℕ) (u m : String) (d : client.Data) (t : ℕ)
      → session_key u ≡ k
      → now ≤ t
      → includes (client.smembers t (register_user_session client now u m d) k) s
        ≡ (ltb t (now + 7200000) && (m == s || includes (client.smembers now d k) s))
  unfolding register_user_session
  register_same now u m d t same later =
      let d' = client.sadd now d (session_key u) m in
      ap (λ j. includes (client.smembers t (client.expire now d' (session_key u) 7200) j) s)
        (sym same)
      ∙ ap (λ ms. includes ms s)
          (client.smembers-expire t now d' (session_key u) 7200 (omega arith) later)
      ∙ includes_while (ltb t (now + 7200000)) (client.smembers now d' (session_key u))
      ∙ ap (λ b. ltb t (now + 7200000) && b)
          (client.smembers-sadd now d (session_key u) m s
            ∙ ap (λ j. m == s || includes (client.smembers now d j) s) same)

  register-Holds :
      (now : ℕ) (u m : String) (d : client.Data) (until : Option ℕ)
      → Holds now until d
      → Holds now
          (if session_key u == k
            then (if m == s || lasts now until then some (now + 7200000) else none)
            else until)
          (register_user_session client now u m d)
  register-Holds now u m d until h t later = elim (Bool-cases (session_key u == k)) [
    | inr other ↦ rw other (ap (λ ms. includes ms s) (register_other now u m d t other) ∙ h t later)
    | inl same ↦ rw same (
        register_same now u m d t ((eq_iff (session_key u) k).0 same) later
        ∙ ap (λ b. ltb t (now + 7200000) && (m == s || b)) (h now (omega arith))
        ∙ lasts_while (m == s || lasts now until) t (now + 7200000))
  ]

  no_members : (xs : List String) → (length xs == 0) ≡ true → xs ≡ []
  no_members [] h = refl
  no_members (x ∷ xs) h = absurd (ground arith)

  -- Deleting a set without members changes no set.
  del_empty :
      (d : client.Data) (j : String) (t : ℕ)
      → client.smembers t d j ≡ []
      → client.smembers t (client.del d j) k ≡ client.smembers t d k
  del_empty d j t empty = rw (client.smembers-del t d j k) (elim (Bool-cases (j == k)) [
    | inl e ↦ rw e (sym empty ∙ ap (client.smembers t d) ((eq_iff j k).0 e))
    | inr e ↦ rw e refl
  ])

  unregister-srem :
      (now : ℕ) (u m : String) (d : client.Data) (t : ℕ)
      → now ≤ t
      → client.smembers t (unregister_user_session client now u m d) k
        ≡ client.smembers t (client.srem now d (session_key u) m) k
  unfolding unregister_user_session
  unregister-srem now u m d t later =
      let d' = client.srem now d (session_key u) m in
      elim (Bool-cases (client.scard now d' (session_key u) == 0)) [
        | inr e ↦ rw (e, unregister_user_session) refl
        | inl e ↦
            rw (e, unregister_user_session)
              (del_empty d' (session_key u) t (
                client.stays_empty t now d' (session_key u) later
                  (no_members _ (rw (client.scard-smembers now d' (session_key u)) at e))))
      ]

  unregister-Holds :
      (now : ℕ) (u m : String) (d : client.Data) (until : Option ℕ)
      → Holds now until d
      → Holds now
          (if session_key u == k && m == s then none else until)
          (unregister_user_session client now u m d)
  unregister-Holds now u m d until h t later =
      ap (λ ms. includes ms s) (unregister-srem now u m d t later)
      ∙ elim (Bool-cases (session_key u == k)) [
        | inr other ↦ rw other (
            ap (λ ms. includes ms s) (client.srem_other t now d (session_key u) m k other)
            ∙ h t later)
        | inl same ↦
            let removed : includes (client.smembers t (client.srem now d (session_key u) m) k) s
                ≡ (not (m == s) && lasts t until) =
              ap (λ j. includes (client.smembers t (client.srem now d (session_key u) m) j) s)
                (sym ((eq_iff (session_key u) k).0 same))
              ∙ client.smembers-srem t now d (session_key u) m s later
              ∙ ap (λ j. not (m == s) && includes (client.smembers t d j) s)
                  ((eq_iff (session_key u) k).0 same)
              ∙ ap (λ b. not (m == s) && b) (h t later) in
            rw same
              (removed ∙ (elim (Bool-cases (m == s)) [ inl e ↦ rw e refl | inr e ↦ rw e refl ]))
      ]

  follow_events-Holds :
      (es : List SessionEvent) (first last : ℕ) (d : client.Data) (until : Option ℕ)
      → IsOrdered first es last
      → Holds first until d
      → Holds last (active_until k s es until) (follow_events client es d)
  follow_events-Holds [] first last d until ordered h = λ t later. h t (omega arith)
  follow_events-Holds (connects now u m ∷ es) first last d until ordered h =
      follow_events-Holds es now last (register_user_session client now u m d) _ ordered.1
        (register-Holds now u m d until (λ t later. h t (omega (arith, ordered.0))))
  follow_events-Holds (disconnects now u m ∷ es) first last d until ordered h =
      follow_events-Holds es now last (unregister_user_session client now u m d) _ ordered.1
        (unregister-Holds now u m d until (λ t later. h t (omega (arith, ordered.0))))

-- A user starts without sessions, and any events follow in the order of time. At the time of the last or
-- later, a session is among the active sessions of the user exactly if it connected and did not
-- disconnect since, and two hours have never passed since then without one of the user's sessions
-- connecting.
pub get_active_sessions-active_until :
    (client : SetClient) (es : List SessionEvent) (now : ℕ) (user_id session_id : String)
    (d : client.Data)
    → IsOrdered 0 es now
    → ((t : ℕ) → client.smembers t d (session_key user_id) ≡ [])
    → includes
        (get_active_sessions_for_user client now user_id (follow_events client es d))
        session_id
      ≡ lasts now (active_until (session_key user_id) session_id es none)
unfolding get_active_sessions_for_user
get_active_sessions-active_until client es now user_id session_id d ordered empty =
    follow_events-Holds client (session_key user_id) session_id es 0 now d none ordered
      (λ t later. ap (λ ms. includes ms session_id) (empty t)) now (omega arith)
