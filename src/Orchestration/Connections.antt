-- ===== src/Orchestration/Connections.antt =====
-- services/tool/ToolOrchestrator.ts: resolveConnectionId and executeNangoActionDispatcher. The rows of
-- the table of connections stand in the order of their creation. The calls of Nango are a parameter.
pub mod Found
pub mod Owner
use app_intent_system_orches.Base.{
  ℕ, String, Bool, true, false, ◌&&◌, Option, none, some, List, [], ◌∷◌, keep, leb, ◌==◌, string_eq,
  is_empty, includes, to_lower_case, concat, Result, ok, err, if◌then◌else◌,
}
use app_intent_system_orches.Js.{Value, str, bool, object, get}
use app_intent_system_orches.Cortex.Shaper.Webhook.{Connection}
use app_intent_system_orches.Services.Runs.{ToolCall}
use app_intent_system_orches.Catalog.Config.{Categories, get_tool_definition}
use app_intent_system_orches.Catalog.Access.{get_canonical_provider_chain, add_all}

pub record Resolved : Type 0 where
  pub connection_id : String
  pub provider : String

-- Times of the last poll, where none comes last.
abbrev pub leb_poll : Option ℕ → Option ℕ → Bool
leb_poll none n = true
leb_poll (some m) none = false
leb_poll (some m) (some n) = leb m n

-- A row that was created after the others goes before those that were not polled later.
abbrev pub insert_row : Connection → List Connection → List Connection
insert_row c [] = c ∷ []
insert_row c (x ∷ xs) =
    if leb_poll x.last_poll_at c.last_poll_at then c ∷ x ∷ xs else x ∷ insert_row c xs

-- ORDER BY last_poll_at DESC NULLS LAST, created_at DESC
abbrev pub sort_onto : List Connection → List Connection → List Connection
sort_onto sorted [] = sorted
sort_onto sorted (c ∷ cs) = sort_onto (insert_row c sorted) cs

abbrev pub is_row_of : (user_id provider : String) → Connection → Bool
is_row_of user_id provider c = c.user_id == user_id && provider == c.provider

abbrev pub rows_of : (user_id provider : String) → List Connection → List Connection
rows_of user_id provider connections = sort_onto [] (keep (is_row_of user_id provider) connections)

-- if (rows.length > 0 && rows[0].connection_id)
abbrev pub first_of : List Connection → Option Resolved
first_of [] = none
first_of (c ∷ cs) =
    if is_empty c.connection_id
    then none
    else some (record { connection_id = c.connection_id; provider = to_lower_case c.provider })

abbrev pub or_resolved : Option Resolved → Option Resolved → Option Resolved
or_resolved none other = other
or_resolved (some r) other = some r

abbrev pub resolve_among : (candidates : List String) → String → List Connection → Option Resolved
resolve_among [] user_id connections = none
resolve_among (p ∷ ps) user_id connections =
    or_resolved (first_of (rows_of user_id p connections)) (resolve_among ps user_id connections)

unfoldable pub resolve_connection_id : (user_id key : String) → List Connection → Option Resolved
unfolding get_canonical_provider_chain to_lower_case
resolve_connection_id user_id key connections =
    resolve_among (add_all [] (get_canonical_provider_chain key)) user_id connections

-- The methods of the Nango service that the dispatcher calls.
pub data NangoMethod : Type 0 where
  send_email fetch_emails trigger_salesforce_action fetch_calendar_events create_calendar_event
        update_calendar_event trigger_outlook_action fetch_outlook_event_body
        trigger_generic_action :
      NangoMethod

unfoldable pub method_of : (tool : String) → Option NangoMethod
method_of tool =
    if tool == "send_email"
    then some send_email
    else if tool == "fetch_emails"
    then some fetch_emails
    else if includes ("create_entity" ∷ "update_entity" ∷ "fetch_entity" ∷ []) tool
    then some trigger_salesforce_action
    else if tool == "fetch_calendar_events"
    then some fetch_calendar_events
    else if tool == "create_calendar_event"
    then some create_calendar_event
    else if tool == "update_calendar_event"
    then some update_calendar_event
    else if includes
        ("create_outlook_entity" ∷ "update_outlook_entity" ∷ "fetch_outlook_entity" ∷ []) tool
    then some trigger_outlook_action
    else if tool == "fetch_outlook_event_body"
    then some fetch_outlook_event_body
    else if includes
        ("fetch_notion_page" ∷ "create_notion_page" ∷ "update_notion_page" ∷ "create_zoom_meeting"
          ∷ [])
        tool
    then some trigger_generic_action
    else none

-- A call of Nango: the method, the tool's provider key, the connection, the tool and its arguments.
abbrev pub Nango : Type 0 → Type 0
Nango World =
    NangoMethod
    → (key connection_id tool : String) → (arguments : Value) → World
    → Result Value × World

abbrev pub stub_message : Value → Value
stub_message args =
    let input = get "input" args in
    object (
      ("success", bool true)
      ∷ ("message", str "Message logged (stub implementation)")
      ∷ ("channel", get "channel" input)
      ∷ ("text", get "text" input)
      ∷ [])

abbrev pub provider_key_of : Categories → String → Option String
provider_key_of configs tool = elim (get_tool_definition configs tool) [
  | none ↦ none
  | some config ↦ elim config.provider_config_key [
    | none ↦ none
    | some key ↦ if is_empty key then none else some key
  ]
]

module _ {World : Type 0} (nango : Nango World) (configs : Categories)
    (connections : List Connection) where
  abbrev pub call_method :
      Option NangoMethod → (key connection_id : String) → ToolCall → World → Result Value × World
  call_method none key connection_id call w =
      (err (concat ("No Nango handler for tool: " ∷ call.name ∷ [])), w)
  call_method (some method) key connection_id call w =
      nango method key connection_id call.name call.arguments w

  abbrev pub dispatch_to :
      Option Resolved → (key : String) → ToolCall → World → Result Value × World
  dispatch_to none key call w = (
    err (
        concat
          ("No active connectionId found for user " ∷ call.user_id ∷ " for provider " ∷ key ∷ [])),
    w,
  )
  dispatch_to (some resolved) key call w =
      call_method (method_of call.name) key resolved.connection_id call w

  abbrev pub dispatch_with : Option String → ToolCall → World → Result Value × World
  dispatch_with none call w =
      (err (concat ("Missing providerConfigKey for tool: " ∷ call.name ∷ [])), w)
  dispatch_with (some key) call w =
      if call.name == "send_message"
      then (ok (stub_message call.arguments), w)
      else dispatch_to (resolve_connection_id call.user_id key connections) key call w

  unfoldable pub execute_nango_action_dispatcher : ToolCall → World → Result Value × World
  unfolding resolve_connection_id method_of get
  execute_nango_action_dispatcher call w = dispatch_with (provider_key_of configs call.name) call w
