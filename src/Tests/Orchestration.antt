-- ===== src/Tests/Orchestration.antt =====
-- The theorems on the execution of tools at concrete inputs.
use app_intent_system_orches.Base.{
  length, arith, ltb, ◌+◌, ◌*◌, ℕ, suc, ◌≡◌, refl, inl, inr, ◌⊎◌, String, true, Option, none, some,
  List, [], ◌∷◌, All, keep, map, any, is_some, ◌==◌, string_eq, Bool-cases, ok, err, to_lower_case,
  if◌then◌else◌,
}
use app_intent_system_orches.Js.{Value, undefined, str, object, Fields, field, end}
use app_intent_system_orches.Cortex.Shaper.Webhook.{Connection}
use app_intent_system_orches.Services.Runs.{ToolCall}
use app_intent_system_orches.Catalog.Config.{Categories, ToolConfig, normalized}
use app_intent_system_orches.Catalog.Access.{
  is_connected_tool, get_active_providers, get_canonical_provider_chain, add_all,
}
use app_intent_system_orches.Orchestration.Connections.{
  Nango, NangoMethod, resolve_connection_id, method_of, stub_message, provider_key_of,
  execute_nango_action_dispatcher,
}
use app_intent_system_orches.Orchestration.Connections.Found.{
  IsProper, is_connected_tool-resolve_connection_id,
}
use app_intent_system_orches.Orchestration.Connections.Owner.{
  owns, execute_nango_action_dispatcher_owner,
}
use app_intent_system_orches.Orchestration.Fallback.{cache_answer}
use app_intent_system_orches.Orchestration.Fallback.Reached.{
  is_missing, or_records, samples_of, note_for, cache_answer_cases,
}
use app_intent_system_orches.Orchestration.EntityCache.{
  Entry, EntityClient, CachedEntity, DedupeKey, fetch_key, get_recent_cached_entities,
}
use app_intent_system_orches.Orchestration.EntityCache.Recent.{
  Change, caches, records, follow_changes, get_recent_cached_entities-none,
}
use app_intent_system_orches.Orchestration.Duplicates.{
  Request, some_ids, dedupe_key_of, extract_filters, entity_filters, check_for_duplicate,
  record_execution,
}
use app_intent_system_orches.Orchestration.Duplicates.Recordings.{
  Recording, last_under, ids_at, follow_recordings, fetch_of, check_for_duplicate_last,
  check_for_duplicate-record_execution,
}

abbrev Entries : Type 0
Entries = List (String × Option (Entry × ℕ))

-- What is kept until a time, at a time.
abbrev unexpired : (now : ℕ) → Option (Entry × ℕ) → Option Entry
unexpired now none = none
unexpired now (some (e, until)) = if ltb now until then some e else none

abbrev look : (now : ℕ) → Entries → String → Option Entry
look now [] j = none
look now ((k, v) ∷ d) j = if k == j then unexpired now v else look now d j

abbrev stored_keys : (now : ℕ) → Entries → List String
stored_keys now d = keep (λ k. is_some (look now d k)) (map (λ entry. entry.0) d)

keep_found :
    (now : ℕ) (d : Entries) (ks : List String)
    → All (λ k. is_some (look now d k) ≡ true) (keep (λ k. is_some (look now d k)) ks)
keep_found now d [] = tt
keep_found now d (k ∷ ks) = elim (Bool-cases (is_some (look now d k))) [
  | inl e ↦ rw e (e, keep_found now d ks)
  | inr e ↦ rw e (keep_found now d ks)
]

-- A client that is an association list; its keys are all keys, whatever the prefix.
abbrev listed_client : EntityClient
listed_client = record {
  Data = Entries;
  get = look;
  setex = λ now d k ttl e. (k, some (e, now + 1000 * ttl)) ∷ d;
  del = λ d k. (k, none) ∷ d;
  keys = λ now d prefix. stored_keys now d;
  get-setex = λ t now d k ttl e j. refl;
  get-del = λ t d k j. refl;
  keys_found = λ t d prefix. keep_found t d (map (λ entry. entry.0) d);
}

abbrev short_hash : String → String
short_hash s = "0"

abbrev email : CachedEntity
email = record {
  id = "m1";
  type = "email";
  provider = "gmail";
  from = none;
  to = none;
  subject = none;
  name = none;
  account_name = none;
  clean_body = "hello";
  body_hash = "";
  metadata = undefined;
  timestamp = 0;
  session_id = "s";
}

abbrev fetch_all : DedupeKey
fetch_all = record { tool_name = "fetch_emails"; provider = "nango"; filters = undefined }

abbrev changes : List Change
changes = caches 5 "s" email ∷ records 6 "s" fetch_all ("m1" ∷ []) ∷ []

get_recent_cached_entities-none_example :
    get_recent_cached_entities listed_client 7 "s" "email" 5
      (follow_changes listed_client short_hash changes [])
    ≡ []
get_recent_cached_entities-none_example =
    get_recent_cached_entities-none listed_client short_hash changes [] 7 "s" "email" 5
      (λ t k. refl) (λ t. refl) ((refl, refl, refl), (refl, tt)) refl

abbrev deals : Fields
deals = field "entityType" (str "Deal") end

abbrev fetch_deal : String → Request
fetch_deal id = fetch_of "nango" (str id) deals

abbrev recordings : List Recording
recordings =
    record { now = 1; session_id = "s"; request = fetch_deal "a"; ids = "a" ∷ [] }
    ∷ record { now = 2; session_id = "t"; request = fetch_deal "b"; ids = "b" ∷ [] }
    ∷ []

abbrev deal_key : DedupeKey
deal_key = record {
  tool_name = "fetch_entity";
  provider = "nango";
  filters = entity_filters (object (("entityType", str "Deal") ∷ []));
}

deal_key_lem : dedupe_key_of (fetch_deal "b") ≡ ok deal_key
unfolding dedupe_key_of entity_filters extract_filters
deal_key_lem = refl

check_for_duplicate_last_example :
    check_for_duplicate listed_client short_hash 9 "s"
      (fetch_deal "b")
      (follow_recordings listed_client short_hash recordings [])
    ≡ ok (
        some_ids
          (ids_at 9 (last_under short_hash (fetch_key short_hash "s" deal_key) recordings none)))
check_for_duplicate_last_example =
    check_for_duplicate_last listed_client short_hash recordings [] 9 "s" (fetch_deal "b") deal_key
      (λ t k. refl) refl deal_key_lem

check_for_duplicate-record_execution_example :
    check_for_duplicate listed_client short_hash 3600000 "s"
      (fetch_of "nango" (str "b") deals)
      (record_execution listed_client short_hash 1 "s"
        (fetch_of "nango" (str "a") deals)
        ("a" ∷ [])
        []).1
    ≡ ok (some ("a" ∷ []))
check_for_duplicate-record_execution_example =
    check_for_duplicate-record_execution listed_client short_hash [] 1 3600000 "s" "nango" (str "a")
      (str "b") deals "a" [] (omega arith) refl

abbrev connection : (provider id : String) → Connection
connection provider id = record {
  id = id;
  user_id = "u";
  provider = provider;
  connection_id = id;
  enabled = true;
  last_poll_at = some 3;
  error_count = 0;
  last_error = none;
}

abbrev connections : List Connection
connections = connection "gmail" "c1" ∷ connection "outlook" "c2" ∷ []

abbrev send_email : ToolConfig
send_email = record {
  name = "send_email";
  description = "";
  category = "Email";
  display_name = none;
  provider_config_key = some "google-mail-ynxw";
  parameters = none;
  source = none;
  cache_model = none;
}

IsProper-connections : All IsProper connections
unfolding normalized to_lower_case
IsProper-connections = (
  record { has_id = refl; has_provider = refl; is_normal = refl },
  (record { has_id = refl; has_provider = refl; is_normal = refl }, tt),
)

is_connected_tool-resolve_connection_id_example :
    is_connected_tool (get_active_providers "u" connections) send_email
    ≡ is_some (resolve_connection_id "u" "google-mail-ynxw" connections)
is_connected_tool-resolve_connection_id_example =
    is_connected_tool-resolve_connection_id "u" "google-mail-ynxw" connections send_email
      IsProper-connections refl

abbrev configs : Categories
configs = ("Email", send_email ∷ []) ∷ []

-- A service that answers with the connection it was given.
abbrev echo : Nango ℕ
echo method key connection_id tool arguments w = (ok (str connection_id), suc w)

abbrev send_call : ToolCall
send_call = record {
  id = "1";
  name = "send_email";
  arguments = object [];
  session_id = "s";
  user_id = "u";
}

execute_nango_action_dispatcher_owner_example :
    let out = execute_nango_action_dispatcher echo configs connections send_call 0 in
    (((m : String) × (out ≡ (err m, 0)))
      ⊎ ((send_call.name ≡ "send_message") × (out ≡ (ok (stub_message send_call.arguments), 0))))
    ⊎ ((key : String) × (method : NangoMethod) × (id : String) × (provider_key_of configs
            send_call.name
          ≡ some key)
        × (method_of send_call.name ≡ some method)
        × (any
              (owns send_call.user_id id (add_all [] (get_canonical_provider_chain key)))
              connections
            ≡ true)
        × (out ≡ echo method key id send_call.name send_call.arguments 0))
execute_nango_action_dispatcher_owner_example =
    execute_nango_action_dispatcher_owner echo configs connections send_call 0

abbrev lead : Value
lead = object (("entityType", str "Lead") ∷ [])

cache_answer_cases_example :
    let answer = cache_answer "fetch_entity" lead (lead ∷ []) [] undefined in
    (answer.records
      ≡ (if is_missing [] then or_records (samples_of "fetch_entity") (lead ∷ []) else []))
    × (answer.note
        ≡ (if is_missing [] then note_for (samples_of "fetch_entity") lead (lead ∷ []) else none))
    × (answer.total ≡ length answer.records)
cache_answer_cases_example = cache_answer_cases "fetch_entity" lead (lead ∷ []) [] undefined
