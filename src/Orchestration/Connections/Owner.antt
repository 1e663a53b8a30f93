-- ===== src/Orchestration/Connections/Owner.antt =====
-- Whose connection a tool is executed with.
use app_intent_system_orches.Base.{
  ◌≡◌, refl, sym, ap, ◌∙◌, inl, inr, ◌⊎◌, String, Bool, true, ◌&&◌, ◌||◌, Option, none, some, List,
  [], ◌∷◌, any, keep, includes, is_empty, ◌==◌, string_eq, eq_iff, arith, Bool-cases, Option-cases,
  Result, ok, err,
}
use app_intent_system_orches.Js.{Value}
use app_intent_system_orches.Services.Runs.{ToolCall}
use app_intent_system_orches.Cortex.Shaper.Webhook.{Connection}
use app_intent_system_orches.Catalog.Config.{Categories}
use app_intent_system_orches.Catalog.Access.{get_canonical_provider_chain, add_all}
use app_intent_system_orches.Orchestration.Connections.{
  Resolved, NangoMethod, Nango, insert_row, sort_onto, is_row_of, rows_of, first_of, resolve_among,
  resolve_connection_id, method_of, stub_message, provider_key_of, call_method, dispatch_to,
  dispatch_with, execute_nango_action_dispatcher,
}

any-insert_row :
    (q : Connection → Bool) (c : Connection) (cs : List Connection)
    → any q (insert_row c cs) ≡ (q c || any q cs)
any-insert_row q c [] = refl
any-insert_row q c (x ∷ xs) = ground (arith, any-insert_row q c xs)

any-sort_onto :
    (q : Connection → Bool) (sorted cs : List Connection)
    → any q (sort_onto sorted cs) ≡ (any q sorted || any q cs)
any-sort_onto q sorted [] = ground arith
any-sort_onto q sorted (c ∷ cs) =
    ground (arith, any-sort_onto q (insert_row c sorted) cs, any-insert_row q c sorted)

any-keep :
    (p q : Connection → Bool) (cs : List Connection) → any q (keep p cs) ≡ any (λ c. p c && q c) cs
any-keep p q [] = refl
any-keep p q (c ∷ cs) = elim (Bool-cases (p c)) [
  | inl e ↦ rw (e, any-keep p q cs) refl
  | inr e ↦ rw (e, any-keep p q cs) refl
]

-- A connection of the user, with the id, and with one of the providers.
abbrev pub owns : (user_id connection_id : String) → List String → Connection → Bool
owns user_id id providers c =
    c.user_id == user_id && (c.connection_id == id && includes providers c.provider)

any-imp :
    (p q : Connection → Bool) (cs : List Connection)
    → ((c : Connection) → p c ≡ true → q c ≡ true)
    → any p cs ≡ true
    → any q cs ≡ true
any-imp p q [] f h = absurd (cc)
any-imp p q (c ∷ cs) f h = elim (Bool-cases (p c)) [
  | inl e ↦ rw (f c e) refl
  | inr e ↦ let rest = any-imp p q cs f (rw e at h) in ground (arith, rest)
]

abbrev id_of : Option Resolved → String
id_of none = ""
id_of (some r) = r.connection_id

first_of-any :
    (cs : List Connection) (r : Resolved)
    → first_of cs ≡ some r
    → any (λ c. c.connection_id == r.connection_id) cs ≡ true
first_of-any [] r e = absurd (cc)
first_of-any (c ∷ cs) r e = elim (Bool-cases (is_empty c.connection_id)) [
  | inl empty ↦ let none_found : none ≡ some r = rw empty at e in absurd (cc)
  | inr full ↦
      let same : c.connection_id ≡ r.connection_id = ap id_of (rw full at e) in
      rw ((eq_iff c.connection_id r.connection_id).1 same) refl
]

first-row :
    (user_id p : String) (cs : List Connection) (r : Resolved)
    → first_of (rows_of user_id p cs) ≡ some r
    → any (λ c. is_row_of user_id p c && c.connection_id == r.connection_id) cs ≡ true
first-row user_id p cs r e =
    sym (any-keep (is_row_of user_id p) (λ c. c.connection_id == r.connection_id) cs)
    ∙ sym
        (any-sort_onto (λ c. c.connection_id == r.connection_id) [] (keep (is_row_of user_id p) cs))
    ∙ first_of-any (rows_of user_id p cs) r e

resolve_among-owns :
    (ps : List String) (user_id : String) (cs : List Connection) (r : Resolved)
    → resolve_among ps user_id cs ≡ some r
    → any (owns user_id r.connection_id ps) cs ≡ true
resolve_among-owns [] user_id cs r e = absurd (cc)
resolve_among-owns (p ∷ ps) user_id cs r e = elim (Option-cases (first_of (rows_of user_id p cs))) [
  | inl missing ↦
      any-imp (owns user_id r.connection_id ps) (owns user_id r.connection_id (p ∷ ps)) cs
        (λ c h. ground arith) (resolve_among-owns ps user_id cs r (rw missing at e))
  | inr (r', found) ↦
      let same : some r' ≡ some r = rw found at e in
      any-imp (λ c. is_row_of user_id p c && c.connection_id == r.connection_id)
        (owns user_id r.connection_id (p ∷ ps)) cs (λ c h. ground arith)
        (first-row user_id p cs r (found ∙ same))
]

module _ {World : Type 0} (nango : Nango World) (configs : Categories)
    (connections : List Connection) where
  -- A call that does not reach Nango: an exception, or the answer of the tool without a connection.
  abbrev Answered : ToolCall → World → Result Value × World → Type 0
  Answered call w out =
      ((m : String) × (out ≡ (err m, w)))
      ⊎ ((call.name ≡ "send_message") × (out ≡ (ok (stub_message call.arguments), w)))

  -- A call that is passed on with a connection of the user.
  abbrev Passed : ToolCall → World → Result Value × World → Type 0
  Passed call w out =
      (key : String) × (method : NangoMethod) × (id : String) × (provider_key_of configs call.name
        ≡ some key)
      × (method_of call.name ≡ some method)
      × (any (owns call.user_id id (add_all [] (get_canonical_provider_chain key))) connections
          ≡ true)
      × (out ≡ nango method key id call.name call.arguments w)

  abbrev Outcome : ToolCall → World → Result Value × World → Type 0
  Outcome call w out = Answered call w out ⊎ Passed call w out

  -- With a connection that was found.
  with_connection :
      (call : ToolCall) (key : String) (w : World) (resolved : Resolved)
      → provider_key_of configs call.name ≡ some key
      → resolve_connection_id call.user_id key connections ≡ some resolved
      → (out : Result Value × World)
      → out ≡ dispatch_to nango configs connections (some resolved) key call w
      → Outcome call w out
  unfolding resolve_connection_id
  with_connection call key w resolved keyed found out e =
      elim (Option-cases (method_of call.name)) [
        | inl no_method ↦ inl (
            inl (
              _,
              e
                  ∙ ap
                      (λ m.
                        call_method nango configs connections m key resolved.connection_id call w)
                      no_method,
            ))
        | inr (method, named) ↦ inr (
          key,
          method,
          resolved.connection_id,
          keyed,
          named,
          resolve_among-owns (add_all [] (get_canonical_provider_chain key)) call.user_id
              connections resolved found,
          e
              ∙ ap (λ m. call_method nango configs connections m key resolved.connection_id call w)
                  named,
        )
      ]

  with_key :
      (call : ToolCall) (key : String) (w : World)
      → provider_key_of configs call.name ≡ some key
      → (out : Result Value × World)
      → out ≡ dispatch_with nango configs connections (some key) call w
      → Outcome call w out
  with_key call key w keyed out e = elim (Bool-cases (call.name == "send_message")) [
    | inl stub ↦ inl (inr ((eq_iff call.name "send_message").0 stub, e ∙ rw stub refl))
    | inr other ↦
        let sent : out
            ≡ dispatch_to nango configs connections
                (resolve_connection_id call.user_id key connections) key call w =
          e ∙ rw other refl in
        elim (Option-cases (resolve_connection_id call.user_id key connections)) [
          | inl missing ↦
              inl (
                inl
                  (_, sent ∙ ap (λ r. dispatch_to nango configs connections r key call w) missing))
          | inr (resolved, found) ↦
              with_connection call key w resolved keyed found out
                (sent ∙ ap (λ r. dispatch_to nango configs connections r key call w) found)
        ]
  ]

  -- A tool that the dispatcher executes either gets to Nango not at all, and nothing has happened:
  -- with an exception, or as `send_message`, which is only answered. Or it is passed on once to the
  -- method of its name, with the provider key of the catalogue and the id of a connection that
  -- belongs to the user of the call and to a provider that the key stands for.
  pub execute_nango_action_dispatcher_owner :
      (call : ToolCall) (w : World)
      → let out = execute_nango_action_dispatcher nango configs connections call w in
        (((m : String) × (out ≡ (err m, w)))
          ⊎ ((call.name ≡ "send_message") × (out ≡ (ok (stub_message call.arguments), w))))
        ⊎ ((key : String) × (method : NangoMethod) × (id : String) × (provider_key_of configs
                call.name
              ≡ some key)
            × (method_of call.name ≡ some method)
            × (any
                  (owns call.user_id id (add_all [] (get_canonical_provider_chain key)))
                  connections
                ≡ true)
            × (out ≡ nango method key id call.name call.arguments w))
  unfolding execute_nango_action_dispatcher resolve_connection_id
  execute_nango_action_dispatcher_owner call w =
      elim (Option-cases (provider_key_of configs call.name)) [
        | inl no_key ↦
            inl (inl (_, ap (λ k. dispatch_with nango configs connections k call w) no_key))
        | inr (key, keyed) ↦
            with_key call key w keyed _
              (ap (λ k. dispatch_with nango configs connections k call w) keyed)
      ]
