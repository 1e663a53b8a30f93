-- ===== src/Catalog/Access/Caching.antt =====
-- What the cache of a user's tools answers, compared with the connections.
use app_intent_system_orches.Base.{
  ℕ, ◌+◌, ltb, eq_refl, subst, ◌≡◌, refl, sym, ap, ◌∙◌, eq_iff, inl, inr, String, Bool, false, not,
  ◌&&◌, Option, none, some, List, [], ◌∷◌, keep, ◌==◌, string_eq, is_empty, Bool-cases,
  Option-cases, if◌then◌else◌, All, keep_congr,
}
use app_intent_system_orches.Cortex.Shaper.Webhook.{Connection}
use app_intent_system_orches.Catalog.Config.{ToolConfig, Categories, get_all_tools, normalized}
use app_intent_system_orches.Catalog.Access.{
  get_active_providers, is_connected_tool, connected_tools, ToolCache, cache_key,
  get_available_tools_for_user, invalidate_cache,
}
use app_intent_system_orches.Catalog.Access.Laws.{has_connection, includes-providers_from}

-- The user has a connection for the provider of the tool.
abbrev pub may_use : String → List Connection → ToolConfig → Bool
may_use user_id connections tool = elim tool.provider_config_key [
  | none ↦ false
  | some key ↦ not (is_empty key) && has_connection user_id connections (normalized key)
]

abbrev pub usable_tools : Categories → String → List Connection → List ToolConfig
usable_tools configs user_id connections =
    keep (may_use user_id connections) (get_all_tools configs)

is_connected_tool-may_use :
    (user_id : String) (connections : List Connection) (tool : ToolConfig)
    → is_connected_tool (get_active_providers user_id connections) tool
      ≡ may_use user_id connections tool
is_connected_tool-may_use user_id connections tool = elim (Option-cases tool.provider_config_key) [
  | inl e ↦ rw e refl
  | inr (key, e) ↦ rw (e, includes-providers_from [] user_id connections (normalized key)) refl
]

tools_alike :
    (user_id : String) (connections : List Connection) (tools : List ToolConfig)
    → All
        (λ tool.
          is_connected_tool (get_active_providers user_id connections) tool
          ≡ may_use user_id connections tool)
        tools
tools_alike user_id connections [] = tt
tools_alike user_id connections (tool ∷ tools) =
    (is_connected_tool-may_use user_id connections tool, tools_alike user_id connections tools)

connected_tools-usable_tools :
    (configs : Categories) (connections : List Connection) (user_id : String)
    → connected_tools configs connections user_id ≡ usable_tools configs user_id connections
connected_tools-usable_tools configs connections user_id =
    keep_congr (is_connected_tool (get_active_providers user_id connections))
      (may_use user_id connections) (get_all_tools configs)
      (tools_alike user_id connections (get_all_tools configs))

-- A user's tools are asked for at a time, while the connections are as given, or the user's cache is
-- invalidated.
pub data Call : Type 0 where
  asks : (now : ℕ) (user_id : String) (connections : List Connection) → Call
  invalidates : (user_id : String) → Call

-- A list of tools with the time until which it is remembered.
abbrev pub Memory : Type 0
Memory = Option (List ToolConfig × ℕ)

-- What is still remembered at a time.
abbrev pub alive : ℕ → Memory → Option (List ToolConfig)
alive t none = none
alive t (some (tools, until)) = if ltb t until then some tools else none

abbrev pub or_fresh : Option (List ToolConfig) → List ToolConfig → List ToolConfig
or_fresh none fresh = fresh
or_fresh (some tools) fresh = tools

-- A question is answered from memory, or its answer is remembered for five minutes.
abbrev pub after_question : ℕ → List ToolConfig → Memory → Memory
after_question now fresh memory = elim (alive now memory) [
  | some tools ↦ memory
  | none ↦ some (fresh, now + 300000)
]

-- What is remembered for the key after the calls.
abbrev pub remembered : Categories → (key : String) → List Call → Memory → Memory
remembered configs key [] memory = memory
remembered configs key (asks now u connections ∷ calls) memory = remembered configs key calls (
    if cache_key u == key
    then after_question now (usable_tools configs u connections) memory
    else memory)
remembered configs key (invalidates u ∷ calls) memory =
    remembered configs key calls (if cache_key u == key then none else memory)

module _ (cache : ToolCache) (configs : Categories) where
  abbrev pub follow_call : Call → cache.Data → cache.Data
  follow_call (asks now u connections) d =
      (get_available_tools_for_user cache configs connections now u d).1
  follow_call (invalidates u) d = invalidate_cache cache u d

  abbrev pub follow_calls : List Call → cache.Data → cache.Data
  follow_calls [] d = d
  follow_calls (call ∷ calls) d = follow_calls calls (follow_call call d)

  -- At any time, the cache holds under the key what is remembered.
  abbrev Holds : String → Memory → cache.Data → Type 0
  Holds key memory d = (t : ℕ) → cache.get t d key ≡ alive t memory

  ask_cold :
      (now : ℕ) (u : String) (connections : List Connection) (d : cache.Data)
      → cache.get now d (cache_key u) ≡ none
      → (get_available_tools_for_user cache configs connections now u d).1
        ≡ cache.setex now d (cache_key u) 300 (usable_tools configs u connections)
  unfolding get_available_tools_for_user
  ask_cold now u connections d e =
      rw (e, get_available_tools_for_user)
        (ap (cache.setex now d (cache_key u) 300)
          (connected_tools-usable_tools configs connections u))

  ask_warm :
      (now : ℕ) (u : String) (connections : List Connection) (d : cache.Data)
      (tools : List ToolConfig)
      → cache.get now d (cache_key u) ≡ some tools
      → (get_available_tools_for_user cache configs connections now u d).1 ≡ d
  unfolding get_available_tools_for_user
  ask_warm now u connections d tools e = rw (e, get_available_tools_for_user) refl

  -- A question about a user changes no other key.
  ask_other :
      (now : ℕ) (u : String) (connections : List Connection) (d : cache.Data) (key : String) (t : ℕ)
      → (cache_key u == key) ≡ false
      → cache.get t (follow_call (asks now u connections) d) key ≡ cache.get t d key
  ask_other now u connections d key t differ = elim (Option-cases (cache.get now d (cache_key u))) [
    | inl e ↦
        ap (λ x. cache.get t x key) (ask_cold now u connections d e)
        ∙ cache.get-setex t now d (cache_key u) 300 (usable_tools configs u connections) key
        ∙ rw differ refl
    | inr (tools, e) ↦ ap (λ x. cache.get t x key) (ask_warm now u connections d tools e)
  ]

  -- A question about a user leaves the user's key as `after_question` says.
  ask_same :
      (now : ℕ) (u : String) (connections : List Connection) (d : cache.Data) (memory : Memory)
      → Holds (cache_key u) memory d
      → Holds
          (cache_key u)
          (after_question now (usable_tools configs u connections) memory)
          (follow_call (asks now u connections) d)
  ask_same now u connections d memory h t = elim (Option-cases (cache.get now d (cache_key u))) [
    | inl e ↦
        let expired : alive now memory ≡ none = sym (h now) ∙ e in
        ap (λ x. cache.get t x (cache_key u)) (ask_cold now u connections d e)
        ∙ cache.get-setex t now d (cache_key u) 300 (usable_tools configs u connections)
            (cache_key u)
        ∙ rw (expired, after_question, eq_refl (cache_key u)) refl
    | inr (tools, e) ↦
        let kept : alive now memory ≡ some tools = sym (h now) ∙ e in
        ap (λ x. cache.get t x (cache_key u)) (ask_warm now u connections d tools e)
        ∙ h t
        ∙ rw (kept, after_question) refl
  ]

  ask-Holds :
      (now : ℕ) (u : String) (connections : List Connection) (d : cache.Data) (key : String)
      (memory : Memory)
      → Holds key memory d
      → Holds key
          (if cache_key u == key
            then after_question now (usable_tools configs u connections) memory
            else memory)
          (follow_call (asks now u connections) d)
  ask-Holds now u connections d key memory h t = elim (Bool-cases (cache_key u == key)) [
    | inr differ ↦ rw differ (ask_other now u connections d key t differ ∙ h t)
    | inl same ↦ rw same (
        subst
          (λ k.
            Holds k memory d
            → Holds k (after_question now (usable_tools configs u connections) memory)
                (follow_call (asks now u connections) d))
          ((eq_iff (cache_key u) key).0 same) (ask_same now u connections d memory) h t)
  ]

  invalidate-Holds :
      (u : String) (d : cache.Data) (key : String) (memory : Memory)
      → Holds key memory d
      → Holds key (if cache_key u == key then none else memory) (invalidate_cache cache u d)
  unfolding invalidate_cache
  invalidate-Holds u d key memory h t =
      cache.get-del t d (cache_key u) key ∙ elim (Bool-cases (cache_key u == key)) [
        | inl same ↦ rw same refl
        | inr differ ↦ rw differ (h t)
      ]

  follow_calls-Holds :
      (calls : List Call) (d : cache.Data) (key : String) (memory : Memory)
      → Holds key memory d
      → Holds key (remembered configs key calls memory) (follow_calls calls d)
  follow_calls-Holds [] d key memory h = h
  follow_calls-Holds (asks now u connections ∷ calls) d key memory h =
      follow_calls-Holds calls (follow_call (asks now u connections) d) key _
        (ask-Holds now u connections d key memory h)
  follow_calls-Holds (invalidates u ∷ calls) d key memory h =
      follow_calls-Holds calls (invalidate_cache cache u d) key _
        (invalidate-Holds u d key memory h)

  -- However the tools of users are asked for, while their connections change, and whenever caches
  -- are invalidated, from a cache that holds nothing for the user: the answer is the list of the
  -- tools for whose provider, or an equivalent one, the user had a connection at the last question
  -- that was answered from the connections, while five minutes have not passed since that question
  -- and the user's cache was not invalidated after it; and else, has one now.
  pub get_available_tools-remembered :
      (calls : List Call) (d : cache.Data) (now : ℕ) (u : String) (connections : List Connection)
      → ((t : ℕ) → cache.get t d (cache_key u) ≡ none)
      → (get_available_tools_for_user cache configs connections now u (follow_calls calls d)).0
        ≡ or_fresh
            (alive now (remembered configs (cache_key u) calls none))
            (usable_tools configs u connections)
  unfolding get_available_tools_for_user
  get_available_tools-remembered calls d now u connections cold =
      let after = follow_calls-Holds calls d (cache_key u) none cold now in
      elim (Option-cases (cache.get now (follow_calls calls d) (cache_key u))) [
        | inl e ↦
            rw (← after, e, get_available_tools_for_user)
              (connected_tools-usable_tools configs connections u)
        | inr (tools, e) ↦ rw (← after, e, get_available_tools_for_user) refl
      ]
