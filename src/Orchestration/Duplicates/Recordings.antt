-- ===== src/Orchestration/Duplicates/Recordings.antt =====
-- What a fetch is answered after executions were recorded.
use app_intent_system_orches.Base.{
  ℕ, ◌+◌, ◌<◌, ltb, arith, ◌≡◌, refl, ap, ◌∙◌, inl, inr, String, Bool, true, false, Option, none,
  some, List, [], ◌∷◌, ◌==◌, string_eq, eq_refl, Bool-cases, Result, ok, err, if◌then◌else◌,
}
use app_intent_system_orches.Js.{Value, undefined, obj, field, Fields, get, get_field}
use app_intent_system_orches.Orchestration.EntityCache.{
  EntityClient, DedupeKey, CachedFetchResult, fetched, ids_of, fetch_key, check_fetch_deduplication,
  record_fetch_result,
}
use app_intent_system_orches.Orchestration.Duplicates.{
  Request, record_keyed, is_fetch_operation, extract_filters, filters_of_input, entity_filters,
  dedupe_key_of, some_ids, check_for_duplicate, record_execution,
}

ids_of_kept :
    (b : Bool) (r : CachedFetchResult)
    → ids_of (if b then some (fetched r) else none) ≡ (if b then some r.entity_ids else none)
ids_of_kept true r = refl
ids_of_kept false r = refl

pub record Recording : Type 0 where
  pub now : ℕ
  pub session_id : String
  pub request : Request
  pub ids : List String

abbrev pub key_of_ok : (hash : String → String) → String → Result DedupeKey → Option String
key_of_ok hash session_id (err message) = none
key_of_ok hash session_id (ok key) = some (fetch_key hash session_id key)

-- The name under which a request is kept, if it is.
abbrev pub stored_key : (hash : String → String) → String → Request → Option String
stored_key hash session_id request =
    if is_fetch_operation request.tool_name
    then key_of_ok hash session_id (dedupe_key_of request)
    else none

abbrev pub names : Option String → String → Bool
names none key = false
names (some k) key = k == key

-- The last recording under the key.
abbrev pub last_under :
    (hash : String → String) → String → List Recording → Option Recording → Option Recording
last_under hash key [] before = before
last_under hash key (r ∷ rs) before =
    last_under hash key rs
      (if names (stored_key hash r.session_id r.request) key then some r else before)

-- The ids of a recording, for an hour.
abbrev pub ids_at : ℕ → Option Recording → Option (List String)
ids_at t none = none
ids_at t (some r) = if ltb t (r.now + 3600000) then some r.ids else none

abbrev pub fetch_of : (provider : String) → (identifier : Value) → Fields → Request
fetch_of provider identifier rest = record {
  tool_name = "fetch_entity";
  provider = provider;
  arguments = obj (field "identifier" identifier rest);
}

abbrev fetch_key_of : (provider : String) → Fields → DedupeKey
fetch_key_of provider rest = record {
  tool_name = "fetch_entity";
  provider = provider;
  filters = entity_filters (obj rest);
}

fetch_of_keyed :
    (provider : String) (v : Value) (rest : Fields)
    → get_field "input" rest ≡ undefined
    → dedupe_key_of (fetch_of provider v rest) ≡ ok (fetch_key_of provider rest)
unfolding dedupe_key_of extract_filters filters_of_input entity_filters get
fetch_of_keyed provider v rest direct = rw direct refl

module _ (client : EntityClient) (hash : String → String) where
  abbrev pub follow_recording : Recording → client.Data → client.Data
  follow_recording r d = (record_execution client hash r.now r.session_id r.request r.ids d).1

  abbrev pub follow_recordings : List Recording → client.Data → client.Data
  follow_recordings [] d = d
  follow_recordings (r ∷ rs) d = follow_recordings rs (follow_recording r d)

  ids-record_keyed :
      (now : ℕ) (session_id : String) (result : Result DedupeKey) (ids : List String)
      (d : client.Data) (t : ℕ) (name : String)
      → ids_of (client.get t (record_keyed client hash now session_id result ids d).1 name) ≡ (
          if names (key_of_ok hash session_id result) name
          then (if ltb t (now + 3600000) then some ids else none)
          else ids_of (client.get t d name))
  unfolding record_fetch_result
  ids-record_keyed now session_id (err message) ids d t name = refl
  ids-record_keyed now session_id (ok key) ids d t name =
      ap ids_of (client.get-setex t now d (fetch_key hash session_id key) 3600 _ name)
      ∙ elim (Bool-cases (fetch_key hash session_id key == name)) [
        | inl same ↦ rw same (ids_of_kept (ltb t (now + 3600000)) _)
        | inr differ ↦ rw differ refl
      ]

  ids-follow_recording :
      (r : Recording) (d : client.Data) (t : ℕ) (name : String)
      → ids_of (client.get t (follow_recording r d) name) ≡ (
          if names (stored_key hash r.session_id r.request) name
          then ids_at t (some r)
          else ids_of (client.get t d name))
  unfolding record_execution
  ids-follow_recording r d t name = elim (Bool-cases (is_fetch_operation r.request.tool_name)) [
    | inl e ↦
        rw (follow_recording, record_execution, e)
          (ids-record_keyed r.now r.session_id (dedupe_key_of r.request) r.ids d t name)
    | inr e ↦ rw (follow_recording, record_execution, e) refl
  ]

  ids-follow_recordings :
      (rs : List Recording) (d : client.Data) (key : String) (before : Option Recording)
      → ((t : ℕ) → ids_of (client.get t d key) ≡ ids_at t before)
      → (t : ℕ)
      → ids_of (client.get t (follow_recordings rs d) key)
        ≡ ids_at t (last_under hash key rs before)
  ids-follow_recordings [] d key before h t = h t
  ids-follow_recordings (r ∷ rs) d key before h t =
      ids-follow_recordings rs (follow_recording r d) key
        (if names (stored_key hash r.session_id r.request) key then some r else before)
        (λ u.
          ids-follow_recording r d u key
          ∙ elim (Bool-cases (names (stored_key hash r.session_id r.request) key)) [
            | inl same ↦ rw same refl
            | inr differ ↦ rw differ (h u)
          ])
        t

  -- However executions were recorded in a cache that was empty: a fetch whose filters can be read is
  -- answered by the ids of the last execution that was recorded under the same hash of session, tool,
  -- provider and filters, if there was one, it had ids and an hour has not passed since it was recorded,
  -- and by nothing otherwise.
  pub check_for_duplicate_last :
      (rs : List Recording) (d : client.Data) (now : ℕ) (session_id : String) (request : Request)
      (key : DedupeKey)
      → ((t : ℕ) (k : String) → client.get t d k ≡ none)
      → is_fetch_operation request.tool_name ≡ true
      → dedupe_key_of request ≡ ok key
      → check_for_duplicate client hash now session_id request (follow_recordings rs d)
        ≡ ok (some_ids (ids_at now (last_under hash (fetch_key hash session_id key) rs none)))
  unfolding check_for_duplicate check_fetch_deduplication
  check_for_duplicate_last rs d now session_id request key empty fetch keyed =
      let name = fetch_key hash session_id key in
      rw (fetch, keyed, check_for_duplicate)
        (ap (λ ids. ok (some_ids ids))
          (ids-follow_recordings rs d name none (λ t. ap ids_of (empty t name)) now))

  -- The identifier of a fetch of entities is no part of its key: for an hour after a fetch was recorded
  -- with some ids, one for any other identifier, with the same other arguments, is answered by those
  -- ids.
  pub check_for_duplicate-record_execution :
      (d : client.Data) (now later : ℕ) (session_id provider : String) (v w : Value) (rest : Fields)
      (id : String) (ids : List String)
      → later < now + 3600000
      → get_field "input" rest ≡ undefined
      → check_for_duplicate client hash later session_id
          (fetch_of provider w rest)
          (record_execution client hash now session_id (fetch_of provider v rest) (id ∷ ids) d).1
        ≡ ok (some (id ∷ ids))
  unfolding check_for_duplicate check_fetch_deduplication record_execution
  check_for_duplicate-record_execution d now later session_id provider v w rest id ids soon direct =
      let key = fetch_key_of provider rest in
      let name = fetch_key hash session_id key in
      let after = (record_keyed client hash now session_id (ok key) (id ∷ ids) d).1 in
      let in_time : ltb later (now + 3600000) ≡ true = ground (arith, soon) in
      let stored : ids_of (client.get later after name) ≡ some (id ∷ ids) =
        ids-record_keyed now session_id (ok key) (id ∷ ids) d later name
        ∙ rw (eq_refl name, in_time) refl in
      rw (fetch_of_keyed provider v rest direct, fetch_of_keyed provider w rest direct)
        (ap (λ ids. ok (some_ids ids)) stored)
