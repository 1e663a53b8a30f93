-- ===== src/Cortex/Shaper/Webhook.antt =====
-- cortex/event-shaper.ts: handleWebhook and getUserId.
pub mod Laws
use Prim.Native.String.{count}
use app_intent_system_orches.Base.{
  ℕ, ◌+◌, String, Bool, true, false, Option, none, some, List, [], ◌∷◌, ◌==◌, string_eq, is_some,
  is_empty, concat, show_nat, slice_text, ℤ, pos, int_beq, ◌+ℤ◌, if◌then◌else◌,
}
use app_intent_system_orches.Js.{Value, undefined, num, arr, str, object, get, count_items}
use app_intent_system_orches.Cortex.Types.{Event, Run}
use app_intent_system_orches.Cortex.Redis.{Redis}
use app_intent_system_orches.Cortex.World.{Outside}
use app_intent_system_orches.Cortex.Store.Tables.{Store}
use app_intent_system_orches.Cortex.Dispatch.{Dispatched, process_event}

-- A row of the table of connections.
pub record Connection : Type 0 where
  pub id : String
  pub user_id : String
  pub provider : String
  pub connection_id : String
  pub enabled : Bool
  pub last_poll_at : Option ℕ
  pub error_count : ℕ
  pub last_error : Option String

-- `response_results` is untyped: an object with counts or lists, or undefined.
pub record WebhookPayload : Type 0 where
  pub connection_id : String
  pub model : String
  pub sync_name : String
  pub response_results : Value

-- A number of changes, given as a number or as the list of the records.
abbrev pub count_of : Value → ℤ
count_of (num n) = n
count_of (arr vs) = pos (count_items vs)
count_of _ = pos 0

-- s.startsWith(prefix)
abbrev pub starts_with : String → String → Bool
starts_with prefix s = slice_text (count prefix) s == prefix

unfoldable pub get_source_from_model : String → String
unfolding slice_text
get_source_from_model model =
    if starts_with "Gmail" model
    then "gmail"
    else if starts_with "Calendar" model
    then "google-calendar"
    else if starts_with "Salesforce" model
    then "salesforce"
    else "gmail"

abbrev pub owner_key : String → String
owner_key connection_id = concat ("connection-owner:" ∷ connection_id ∷ [])

-- SELECT user_id FROM connections WHERE connection_id = … LIMIT 1
abbrev pub owner_of : String → List Connection → Option String
owner_of id [] = none
owner_of id (c ∷ cs) = if c.connection_id == id then some c.user_id else owner_of id cs

-- if (cachedUserId): the empty text counts as none
abbrev pub nonempty_text : Option String → Option String
nonempty_text none = none
nonempty_text (some s) = if is_empty s then none else some s

module _ {redis : Redis} where
  -- The store keeps the owner that was found.
  unfoldable pub get_user_id : List Connection → String → Store redis → Option String × Store redis
  get_user_id connections id s = elim (nonempty_text (redis.get s.cache (owner_key id))) [
    | some user_id ↦ (some user_id, s)
    | none ↦ elim (owner_of id connections) [
      | none ↦ (none, s)
      | some user_id ↦ (some user_id, record s { cache = redis.set s.cache (owner_key id) user_id })
    ]
  ]

abbrev pub webhook_key : WebhookPayload → String
webhook_key p = concat ("webhook:" ∷ p.connection_id ∷ ":" ∷ p.model ∷ [])

abbrev pub sync_dedupe_key : WebhookPayload → String
sync_dedupe_key p = concat (p.connection_id ∷ "_" ∷ p.model ∷ [])

-- The event that a webhook stands for; `stamp` is the time in its id.
unfoldable pub sync_event : WebhookPayload → (user_id : String) → (stamp time : ℕ) → Event
unfolding get_source_from_model show_nat
sync_event p user_id stamp time = record {
  id = concat ("sync_" ∷ p.connection_id ∷ "_" ∷ show_nat stamp ∷ []);
  source = get_source_from_model p.model;
  event = "sync_completed";
  timestamp = time;
  user_id = user_id;
  payload = object (
      ("connectionId", str p.connection_id)
      ∷ ("model", str p.model)
      ∷ ("syncName", str p.sync_name)
      ∷ ("addedCount", num (count_of (get "added" p.response_results)))
      ∷ ("updatedCount", num (count_of (get "updated" p.response_results)))
      ∷ []);
  dedupe_key = some (sync_dedupe_key p);
}

-- What `handleWebhook` leaves behind: the number it returns and the runs that were started.
pub record Handled (outside : Outside) (redis : Redis) : Type 0 where
  pub processed : ℕ
  pub started : List Run
  pub store : Store redis
  pub world : outside.World

abbrev pub total_changes : WebhookPayload → ℤ
total_changes p =
    count_of (get "added" p.response_results) +ℤ count_of (get "updated" p.response_results)

module _ (outside : Outside) {redis : Redis} (encode : Event → String) where
  unfoldable pub emit_sync :
      WebhookPayload → String → Store redis → outside.World → Handled outside redis
  unfolding sync_event process_event
  emit_sync p user_id s w =
      let (stamp, w₁) = outside.now w in
      let (time, w₂) = outside.now w₁ in
      let done = process_event outside encode (sync_event p user_id stamp time) s w₂ in
      record {
        processed = 1;
        started = done.started;
        store = record done.store { cache = redis.set done.store.cache (webhook_key p) "1" };
        world = done.world;
      }

  abbrev pub unhandled : Store redis → outside.World → Handled outside redis
  unhandled s w = record { processed = 0; started = []; store = s; world = w }

  unfoldable pub handle_webhook :
      List Connection → WebhookPayload → Store redis → outside.World → Handled outside redis
  handle_webhook connections p s w =
      if is_some (nonempty_text (redis.get s.cache (webhook_key p)))
      then unhandled s w
      else let (owner, s') = get_user_id connections p.connection_id s in
        elim (nonempty_text owner) [
          | none ↦ unhandled s' w
          | some user_id ↦
              if int_beq (total_changes p) (pos 0) then unhandled s' w else emit_sync p user_id s' w
        ]
