-- ===== src/Orchestration/Connections/Found.antt =====
-- When a connection is found for a tool.
use app_intent_system_orches.Base.{
  ◌≡◌, refl, sym, ap, ◌∙◌, inl, inr, String, Bool, true, false, not, ◌&&◌, ◌||◌, some, List, [],
  ◌∷◌, any, keep, includes, is_some, is_empty, ◌==◌, string_eq, eq_iff, arith, Bool-cases, All,
  All-keep,
}
use app_intent_system_orches.Cortex.Shaper.Webhook.{Connection}
use app_intent_system_orches.Catalog.Config.{ToolConfig, normalized}
use app_intent_system_orches.Catalog.Access.{
  equivalence_groups, get_canonical_provider_chain, add_all, get_active_providers,
  is_connected_tool,
}
use app_intent_system_orches.Catalog.Access.Laws.{
  is_same_provider, has_connection, includes-add_all, includes-canonical, includes-providers_from,
}
use app_intent_system_orches.Orchestration.Connections.{
  leb_poll, insert_row, sort_onto, is_row_of, rows_of, first_of, resolve_among,
  resolve_connection_id,
}

-- A row with an id, and a provider that is written in lower case, without white space around it.
pub record IsProper (c : Connection) : Type 0 where
  pub has_id : is_empty c.connection_id ≡ false
  pub has_provider : is_empty c.provider ≡ false
  pub is_normal : normalized c.provider ≡ c.provider

first-insert_row :
    (c : Connection) (cs : List Connection)
    → IsProper c
    → All IsProper cs
    → (is_some (first_of (insert_row c cs)) ≡ true) × All IsProper (insert_row c cs)
first-insert_row c [] p h = (rw p.has_id refl, (p, tt))
first-insert_row c (x ∷ xs) p h = elim (Bool-cases (leb_poll x.last_poll_at c.last_poll_at)) [
  | inl e ↦ rw (e, p.has_id) (refl, (p, h))
  | inr e ↦ rw (e, h.0.has_id) (refl, (h.0, (first-insert_row c xs p h.1).1))
]

abbrev is_inhabited : List Connection → Bool
is_inhabited [] = false
is_inhabited (c ∷ cs) = true

first-sort_onto :
    (sorted cs : List Connection)
    → All IsProper sorted
    → All IsProper cs
    → is_some (first_of (sort_onto sorted cs)) ≡ (is_some (first_of sorted) || is_inhabited cs)
first-sort_onto sorted [] s h = ground arith
first-sort_onto sorted (c ∷ cs) s h =
    let step = first-insert_row c sorted h.0 s in
    ground (arith, first-sort_onto (insert_row c sorted) cs step.1 h.1, step.0)

is_inhabited-keep :
    (p : Connection → Bool) (cs : List Connection) → is_inhabited (keep p cs) ≡ any p cs
is_inhabited-keep p [] = refl
is_inhabited-keep p (c ∷ cs) = elim (Bool-cases (p c)) [
  | inl e ↦ rw e refl
  | inr e ↦ rw e (is_inhabited-keep p cs)
]

first-rows_of :
    (user_id provider : String) (cs : List Connection)
    → All IsProper cs
    → is_some (first_of (rows_of user_id provider cs)) ≡ any (is_row_of user_id provider) cs
first-rows_of user_id provider cs h =
    first-sort_onto [] (keep (is_row_of user_id provider) cs) tt
      (All-keep IsProper (is_row_of user_id provider) cs h)
    ∙ is_inhabited-keep (is_row_of user_id provider) cs

-- Whether a row of the user has one of the providers.
abbrev has_row : List String → String → List Connection → Bool
has_row ps user_id cs = any (λ c. c.user_id == user_id && includes ps c.provider) cs

has_row-cons :
    (p : String) (ps : List String) (user_id : String) (cs : List Connection)
    → has_row (p ∷ ps) user_id cs ≡ (any (is_row_of user_id p) cs || has_row ps user_id cs)
has_row-cons p ps user_id [] = refl
has_row-cons p ps user_id (c ∷ cs) = ground (arith, has_row-cons p ps user_id cs)

has_row-nil : (user_id : String) (cs : List Connection) → has_row [] user_id cs ≡ false
has_row-nil user_id [] = refl
has_row-nil user_id (c ∷ cs) = ground (arith, has_row-nil user_id cs)

resolve_among-has_row :
    (ps : List String) (user_id : String) (cs : List Connection)
    → All IsProper cs
    → is_some (resolve_among ps user_id cs) ≡ has_row ps user_id cs
resolve_among-has_row [] user_id cs h = sym (has_row-nil user_id cs)
resolve_among-has_row (p ∷ ps) user_id cs h = ground (
  arith,
  has_row-cons p ps user_id cs,
  first-rows_of user_id p cs h,
  resolve_among-has_row ps user_id cs h,
)

eq-sym : (a b : String) → (a == b) ≡ (b == a)
eq-sym a b = ground (arith, eq_iff a b, eq_iff b a)

both-sym :
    (groups : List (List String)) (a b : String)
    → any (λ g. includes g a && includes g b) groups
      ≡ any (λ g. includes g b && includes g a) groups
both-sym [] a b = refl
both-sym (g ∷ groups) a b = elim (Bool-cases (includes g a)) [
  | inl e ↦ rw (e, both-sym groups a b) (ground arith)
  | inr e ↦ rw (e, both-sym groups a b) (ground arith)
]

same-sym : (a b : String) → is_same_provider a b ≡ is_same_provider b a
same-sym a b = rw (eq-sym a b, both-sym equivalence_groups a b) refl

row_alike :
    (user_id key : String) (cs : List Connection)
    → is_empty key ≡ false
    → All IsProper cs
    → has_row (add_all [] (get_canonical_provider_chain key)) user_id cs
      ≡ has_connection user_id cs (normalized key)
row_alike user_id key [] k h = refl
row_alike user_id key (c ∷ cs) k h =
    let c' = h.0 in
    ground (
      arith,
      row_alike user_id key cs k h.1,
      includes-add_all [] (get_canonical_provider_chain key) c.provider,
      includes-canonical key c.provider,
      k,
      c'.has_provider,
      same-sym (normalized key) c.provider,
      ap (λ x. is_same_provider x (normalized key)) c'.is_normal,
    )

resolves_iff :
    (user_id key : String) (cs : List Connection)
    → All IsProper cs
    → is_some (resolve_connection_id user_id key cs)
      ≡ (not (is_empty key) && has_connection user_id cs (normalized key))
unfolding resolve_connection_id get_canonical_provider_chain
resolves_iff user_id key cs h = elim (Bool-cases (is_empty key)) [
  | inl e ↦ rw (resolve_connection_id, get_canonical_provider_chain, e) refl
  | inr e ↦
      resolve_among-has_row (add_all [] (get_canonical_provider_chain key)) user_id cs h
      ∙ row_alike user_id key cs e h
      ∙ rw e refl
]

-- Where connections have an id and a provider in lower case: a tool with a provider key is one that
-- the filter of tools counts as connected for a user exactly if a connection of the user is found
-- for its key when the tool is executed.
pub is_connected_tool-resolve_connection_id :
    (user_id key : String) (connections : List Connection) (tool : ToolConfig)
    → All IsProper connections
    → tool.provider_config_key ≡ some key
    → is_connected_tool (get_active_providers user_id connections) tool
      ≡ is_some (resolve_connection_id user_id key connections)
is_connected_tool-resolve_connection_id user_id key connections tool h keyed =
    rw (keyed, includes-providers_from [] user_id connections (normalized key))
      (sym (resolves_iff user_id key connections h))
