-- ===== src/Orchestration/EntityCache.antt =====
-- services/data/CRMEntityCacheService.ts: the entities of a session and the results of its fetches.
-- What the program stores as JSON and reads again is kept as the value. How a body is cleaned of
-- HTML and of footers is left out.
pub mod Recent
use Prim.Native.Char.{code}
use Prim.Native.String.{count}
use app_intent_system_orches.Base.{
  ℕ, ◌+◌, ◌*◌, ltb, zero, suc, ◌≡◌, String, Bool, true, false, Option, none, some, List, [], ◌∷◌,
  keep, map, take, All, includes, is_some, is_empty, leb, ◌==◌, nat_eq, string_eq, concat, ℤ, pos,
  if◌then◌else◌,
}
use app_intent_system_orches.Js.{Value, undefined, str, num, bool, object, json}

pub record CachedEntity : Type 0 where
  pub id : String
  pub type : String
  pub provider : String
  pub from : Option String
  pub to : Option String
  pub subject : Option String
  pub name : Option String
  pub account_name : Option String
  pub clean_body : String
  pub body_hash : String
  pub metadata : Value
  pub timestamp : ℕ
  pub session_id : String

-- `filters` is an object of comparable values.
pub record DedupeKey : Type 0 where
  pub tool_name : String
  pub provider : String
  pub filters : Value

pub record CachedFetchResult : Type 0 where
  pub entity_ids : List String
  pub result_hash : String
  pub timestamp : ℕ
  pub session_id : String

pub data Entry : Type 0 where
  entity : CachedEntity → Entry
  fetched : CachedFetchResult → Entry

-- The commands of Redis that the service sends, with what the documentation says of them. Times are in
-- milliseconds and times to live in seconds; `now` is the time of a command.
pub record EntityClient : Type 1 where
  pub Data : Type 0
  -- GET, SETEX, DEL, and KEYS prefix*
  pub get : (now : ℕ) → Data → String → Option Entry
  pub setex : (now : ℕ) → Data → String → (ttl : ℕ) → Entry → Data
  pub del : Data → String → Data
  pub keys : (now : ℕ) → Data → (prefix : String) → List String
  pub get-setex :
      (t now : ℕ) (d : Data) (k : String) (ttl : ℕ) (e : Entry) (j : String)
      → get t (setex now d k ttl e) j
        ≡ (if k == j then (if ltb t (now + 1000 * ttl) then some e else none) else get t d j)
  pub get-del :
      (t : ℕ) (d : Data) (k j : String) → get t (del d k) j ≡ (if k == j then none else get t d j)
  pub keys_found :
      (t : ℕ) (d : Data) (prefix : String) → All (λ k. is_some (get t d k) ≡ true) (keys t d prefix)

-- ENTITY_CACHE_TTL and FETCH_RESULT_TTL, in seconds
abbrev pub entity_cache_ttl : ℕ
entity_cache_ttl = 86400

abbrev pub fetch_result_ttl : ℕ
fetch_result_ttl = 3600

abbrev pub entity_key : (session_id entity_id : String) → String
entity_key session_id entity_id = concat ("crm-entity" ∷ ":" ∷ session_id ∷ ":" ∷ entity_id ∷ [])

-- The text that is hashed for a fetch.
abbrev pub dedupe_text : DedupeKey → String
dedupe_text key = json (
    object (
      ("toolName", str key.tool_name)
      ∷ ("provider", str key.provider)
      ∷ ("filters", key.filters)
      ∷ []))

-- `hash` is the hexadecimal md5 of a text.
abbrev pub fetch_key : (hash : String → String) → (session_id : String) → DedupeKey → String
fetch_key hash session_id key =
    concat ("fetch-dedup" ∷ ":" ∷ session_id ∷ ":" ∷ hash (dedupe_text key) ∷ [])

abbrev pub entity_of : Option Entry → Option CachedEntity
entity_of (some (entity e)) = some e
entity_of _ = none

abbrev pub ids_of : Option Entry → Option (List String)
ids_of (some (fetched r)) = some r.entity_ids
ids_of _ = none

abbrev pub found : List (Option CachedEntity) → List CachedEntity
found [] = []
found (none ∷ es) = found es
found (some e ∷ es) = e ∷ found es

-- s.split(':')[n]
unfoldable pub after_colons : ℕ → String → Option String
after_colons zero s = some s
after_colons (suc n) String.[] = none
after_colons (suc n) (String.◌∷◌ c s) =
    let here = after_colons n s in
    let later = after_colons (suc n) s in if code c == b':' then here else later

unfoldable pub before_colon : String → String
before_colon String.[] = ""
before_colon (String.◌∷◌ c s) =
    let rest = before_colon s in if code c == b':' then "" else String.◌∷◌ c rest

-- `${s.split(':')[n]}`, where there may be no such part
abbrev pub part_text : ℕ → String → String
part_text n s = elim (after_colons n s) [ none ↦ "undefined" | some rest ↦ before_colon rest ]

-- entities.sort((a, b) => b.timestamp - a.timestamp)
abbrev pub insert_recent : CachedEntity → List CachedEntity → List CachedEntity
insert_recent e [] = e ∷ []
insert_recent e (x ∷ xs) =
    if leb x.timestamp e.timestamp then e ∷ x ∷ xs else x ∷ insert_recent e xs

abbrev pub sort_recent : List CachedEntity → List CachedEntity
sort_recent [] = []
sort_recent (e ∷ es) = insert_recent e (sort_recent es)

abbrev option_value : Option String → Value
option_value none = undefined
option_value (some s) = str s

-- a || b
abbrev or_option : Option String → Option String → Option String
or_option none b = b
or_option (some s) b = if is_empty s then b else some s

-- `iso` is the ISO text of a time.
unfoldable pub generate_index_entry : (iso : ℕ → String) → CachedEntity → Value
generate_index_entry iso e =
    if e.type == "email"
    then object (
        ("id", str e.id)
        ∷ ("type", str "email")
        ∷ ("from", option_value e.from)
        ∷ ("subject", option_value e.subject)
        ∷ ("timestamp", str (iso e.timestamp))
        ∷ ("_cached", bool true)
        ∷ ("_bodySize", num (pos (count e.clean_body)))
        ∷ [])
    else if includes ("contact" ∷ "lead" ∷ "account" ∷ "deal" ∷ "record" ∷ []) e.type
    then object (
        ("id", str e.id)
        ∷ ("type", str e.type)
        ∷ ("name", option_value (or_option e.name e.account_name))
        ∷ ("provider", str e.provider)
        ∷ ("timestamp", str (iso e.timestamp))
        ∷ ("_cached", bool true)
        ∷ ("_dataSize", num (pos (count e.clean_body)))
        ∷ [])
    else object (("id", str e.id) ∷ ("type", str e.type) ∷ ("_cached", bool true) ∷ [])

-- `now` is the time at which a method runs.
module _ (client : EntityClient) where
  unfoldable pub cache_entity :
      (now : ℕ) → (session_id : String) → CachedEntity → client.Data → client.Data
  cache_entity now session_id e d =
      client.setex now d (entity_key session_id e.id) entity_cache_ttl
        (entity (record e { timestamp = now }))

  unfoldable pub get_entity :
      (now : ℕ) → (session_id entity_id : String) → client.Data → Option CachedEntity
  get_entity now session_id entity_id d =
      entity_of (client.get now d (entity_key session_id entity_id))

  unfoldable pub get_entities :
      (now : ℕ)
      → (session_id : String) → (entity_ids : List String) → client.Data
      → List CachedEntity
  unfolding get_entity
  get_entities now session_id ids d = found (map (λ id. get_entity now session_id id d) ids)

  abbrev pub session_keys : (now : ℕ) → String → client.Data → List String
  session_keys now session_id d = client.keys now d (concat ("crm-entity:" ∷ session_id ∷ ":" ∷ []))

  unfoldable pub get_recent_cached_entities :
      (now : ℕ) → (session_id entity_type : String) → (limit : ℕ) → client.Data → List CachedEntity
  unfolding get_entities after_colons before_colon
  get_recent_cached_entities now session_id entity_type limit d =
      let entities =
        get_entities now session_id (map (part_text 3) (session_keys now session_id d)) d in
      take limit (sort_recent (keep (λ e. e.type == entity_type) entities))

  abbrev delete_all : List String → client.Data → client.Data
  delete_all [] d = d
  delete_all (k ∷ ks) d = delete_all ks (client.del d k)

  unfoldable pub clear_session_cache : (now : ℕ) → String → client.Data → client.Data
  clear_session_cache now session_id d = delete_all (session_keys now session_id d) d

  module _ (hash : String → String) where
    unfoldable pub check_fetch_deduplication :
        (now : ℕ) → String → DedupeKey → client.Data → Option (List String)
    check_fetch_deduplication now session_id key d =
        ids_of (client.get now d (fetch_key hash session_id key))

    -- a.join(',') of texts
    abbrev joined_ids : List String → String
    joined_ids [] = ""
    joined_ids (s ∷ []) = s
    joined_ids (s ∷ ss) = concat (s ∷ "," ∷ joined_ids ss ∷ [])

    unfoldable pub record_fetch_result :
        (now : ℕ) → (session_id : String) → DedupeKey → List String → client.Data → client.Data
    record_fetch_result now session_id key ids d =
        client.setex now d (fetch_key hash session_id key) fetch_result_ttl (
          fetched (record {
            entity_ids = ids;
            result_hash = hash (joined_ids ids);
            timestamp = now;
            session_id = session_id;
          }))
