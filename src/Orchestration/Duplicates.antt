-- ===== src/Orchestration/Duplicates.antt =====
-- services/tool/ToolExecutionDeduplicationService.ts: fetches that were done before in a session. That
-- the labels are sorted in place, in the arguments themselves, is left out.
pub mod Recordings
use Prim.Native.Char.{code}
use app_intent_system_orches.Base.{
  ℕ, String, Bool, true, false, ◌||◌, Option, none, some, List, [], ◌∷◌, includes, ◌==◌, string_eq,
  ltb, ℤ, pos, Result, ok, err, if◌then◌else◌,
}
use app_intent_system_orches.Js.{
  Value, undefined, null, str, num, arr, object, Items, cons, nil, get, truthy, ◌or_else◌, to_text,
  join_items, json,
}
use app_intent_system_orches.Plans.Placeholders.{clone}
use app_intent_system_orches.Orchestration.EntityCache.{
  EntityClient, DedupeKey, check_fetch_deduplication, record_fetch_result,
}

pub record Request : Type 0 where
  pub tool_name : String
  pub provider : String
  pub arguments : Value

abbrev fetch_tools : List String
fetch_tools =
    "fetch_emails" ∷ "fetch_entity" ∷ "fetch_entities" ∷ "search_entities" ∷ "fetch_contacts"
    ∷ "fetch_deals" ∷ "fetch_accounts" ∷ []

abbrev pub is_fetch_operation : String → Bool
is_fetch_operation tool = includes fetch_tools tool

-- Whether a text comes before another or is the same, by the codes of its characters.
unfoldable pub text_leb : String → String → Bool
text_leb String.[] t = true
text_leb (String.◌∷◌ c s) String.[] = false
text_leb (String.◌∷◌ c s) (String.◌∷◌ d t) =
    let rest = text_leb s t in
    if ltb (code c) (code d) then true else if ltb (code d) (code c) then false else rest

-- Items are sorted by their texts, with undefined ones last.
abbrev comes_before : Value → Value → Bool
comes_before v undefined = true
comes_before undefined w = false
comes_before v w = text_leb (to_text v) (to_text w)

abbrev insert_item : Value → Items → Items
insert_item v nil = cons v nil
insert_item v (cons w ws) =
    if comes_before v w then cons v (cons w ws) else cons w (insert_item v ws)

-- a.sort()
abbrev pub sort_items : Items → Items
sort_items nil = nil
sort_items (cons v vs) = insert_item v (sort_items vs)

-- labels ? labels.sort().join(',') : undefined
unfoldable pub label_text : Value → Result Value
unfolding text_leb to_text join_items
label_text (arr vs) = ok (str (join_items true (sort_items vs)))
label_text v = if truthy v then err "input.filters.labels.sort is not a function" else ok undefined

unfoldable pub email_filters : Value → Result Value
unfolding label_text get
email_filters input =
    let filters = get "filters" input in
    elim (label_text (get "labels" filters)) [
      | err message ↦ err message
      | ok labels ↦ ok (
          object (
            ("operation", get "operation" input)
            ∷ ("from", get "from" filters)
            ∷ ("to", get "to" filters)
            ∷ ("subject", get "subject" filters)
            ∷ ("labels", labels)
            ∷ ("isRead", get "isRead" filters)
            ∷ ("dateRange", get "dateRange" filters)
            ∷ ("limit", get "limit" filters or_else get "limit" input or_else num (pos 10))
            ∷ []))
    ]

abbrev text_if_truthy : Value → Value
text_if_truthy v = if truthy v then str (json v) else undefined

unfoldable pub entity_filters : Value → Value
unfolding get
entity_filters input = object (
    ("operation", get "operation" input)
    ∷ ("entityType", get "entityType" input)
    ∷ ("filters", text_if_truthy (get "filters" input))
    ∷ ("limit", get "limit" input or_else num (pos 20))
    ∷ [])

unfoldable pub search_filters : Value → Value
unfolding get
search_filters input = object (
    ("operation", get "operation" input)
    ∷ ("entityType", get "entityType" input)
    ∷ ("query", get "query" input)
    ∷ ("limit", get "limit" input or_else num (pos 20))
    ∷ [])

unfoldable pub filters_of_input : (tool : String) → (input : Value) → Result Value
unfolding email_filters entity_filters search_filters clone
filters_of_input tool input =
    if tool == "fetch_emails"
    then email_filters input
    else if tool == "fetch_entity" || tool == "fetch_entities"
    then ok (entity_filters input)
    else if tool == "search_entities"
    then ok (search_filters input)
    else ok (clone input)

-- Arguments that are missing have no properties.
unfoldable pub extract_filters : (tool : String) → (args : Value) → Result Value
unfolding get filters_of_input
extract_filters tool undefined = err "Cannot read properties of undefined (reading 'input')"
extract_filters tool null = err "Cannot read properties of null (reading 'input')"
extract_filters tool args = filters_of_input tool (get "input" args or_else args)

abbrev pub key_with : Request → Value → DedupeKey
key_with request filters = record {
  tool_name = request.tool_name;
  provider = request.provider;
  filters = filters;
}

-- The key of the request, or the message of what it throws.
unfoldable pub dedupe_key_of : Request → Result DedupeKey
dedupe_key_of request = elim (extract_filters request.tool_name request.arguments) [
  | err message ↦ err message
  | ok filters ↦ ok (key_with request filters)
]

-- No ids count as nothing.
abbrev pub some_ids : Option (List String) → Option (List String)
some_ids (some (id ∷ ids)) = some (id ∷ ids)
some_ids _ = none

-- `now` is the time at which a method runs.
module _ (client : EntityClient) (hash : String → String) where
  abbrev pub check_keyed :
      (now : ℕ)
      → (session_id : String) → Result DedupeKey
      → client.Data
      → Result (Option (List String))
  check_keyed now session_id (err message) d = err message
  check_keyed now session_id (ok key) d =
      ok (some_ids (check_fetch_deduplication client hash now session_id key d))

  unfoldable pub check_for_duplicate :
      (now : ℕ) → (session_id : String) → Request → client.Data → Result (Option (List String))
  unfolding dedupe_key_of check_fetch_deduplication
  check_for_duplicate now session_id request d =
      if is_fetch_operation request.tool_name
      then check_keyed now session_id (dedupe_key_of request) d
      else ok none

  abbrev pub record_keyed :
      (now : ℕ)
      → (session_id : String) → Result DedupeKey
      → List String
      → client.Data
      → Option String × client.Data
  record_keyed now session_id (err message) ids d = (some message, d)
  record_keyed now session_id (ok key) ids d =
      (none, record_fetch_result client hash now session_id key ids d)

  -- The store, and the message if it throws.
  unfoldable pub record_execution :
      (now : ℕ)
      → (session_id : String) → Request
      → List String
      → client.Data
      → Option String × client.Data
  unfolding dedupe_key_of record_fetch_result
  record_execution now session_id request ids d =
      if is_fetch_operation request.tool_name
      then record_keyed now session_id (dedupe_key_of request) ids d
      else (none, d)
