-- ===== src/Orchestration/Arguments.antt =====
-- services/tool/ToolOrchestrator.ts: the normalization of the arguments of the Salesforce tools, and
-- the model that a tool reads from the cache. Records and arguments are objects.
use app_intent_system_orches.Base.{
  String, Bool, true, false, ◌&&◌, Option, none, some, List, [], ◌∷◌, ◌==◌, string_eq, is_empty,
  trim, lookup_text, Result, ok, err, if◌then◌else◌,
}
use app_intent_system_orches.Js.{
  Value, undefined, null, str, bool, obj, object, Fields, end, field, get, truthy, ◌or_else◌,
}
use app_intent_system_orches.Catalog.Config.{ToolConfig, text_or}

abbrev entity_type_aliases : List (String × String)
entity_type_aliases =
    ("Deal", "Opportunity")
    ∷ ("Deals", "Opportunity")
    ∷ ("deal", "Opportunity")
    ∷ ("deals", "Opportunity")
    ∷ ("Opp", "Opportunity")
    ∷ ("Opps", "Opportunity")
    ∷ ("opp", "Opportunity")
    ∷ ("opps", "Opportunity")
    ∷ ("Opportunities", "Opportunity")
    ∷ ("opportunities", "Opportunity")
    ∷ ("opportunity", "Opportunity")
    ∷ ("lead", "Lead")
    ∷ ("leads", "Lead")
    ∷ ("Leads", "Lead")
    ∷ ("contact", "Contact")
    ∷ ("contacts", "Contact")
    ∷ ("Contacts", "Contact")
    ∷ ("account", "Account")
    ∷ ("accounts", "Account")
    ∷ ("Accounts", "Account")
    ∷ ("case", "Case")
    ∷ ("cases", "Case")
    ∷ ("Cases", "Case")
    ∷ ("article", "Article")
    ∷ ("articles", "Article")
    ∷ ("Articles", "Article")
    ∷ []

unfoldable pub entity_type_name : String → String
unfolding trim
entity_type_name s = let t = trim s in text_or (lookup_text t entity_type_aliases) t

-- A value that is neither text nor falsy has no method `trim`.
unfoldable pub normalize_entity_type : Value → Result Value
unfolding entity_type_name
normalize_entity_type (str s) = ok (if is_empty s then str s else str (entity_type_name s))
normalize_entity_type v = if truthy v then err "entityType.trim is not a function" else ok v

abbrev is_nullish : Value → Bool
is_nullish undefined = true
is_nullish null = true
is_nullish _ = false

abbrev wrapped : Value → (nullable : Bool) → Value
wrapped v nullable = object (("type", v) ∷ ("nullable", bool nullable) ∷ [])

unfoldable pub wrap_if_present : Value → Value
wrap_if_present undefined = undefined
wrap_if_present v = wrapped v (is_nullish v)

unfoldable pub wrap_identifier : Value → Value
unfolding wrap_if_present
wrap_identifier (str s) = if s == "all" then wrapped (str "all") false else wrap_if_present (str s)
wrap_identifier v = wrap_if_present v

-- Filters that hold nothing count as absent.
unfoldable pub present_filters : Value → Value
present_filters (obj end) = undefined
present_filters v = if truthy v then v else undefined

unfoldable pub normalize_fetch_entity_args : Value → Result Value
unfolding normalize_entity_type get wrap_identifier wrap_if_present present_filters
normalize_fetch_entity_args args = elim (normalize_entity_type (get "entityType" args)) [
  | err message ↦ err message
  | ok entity_type ↦ ok (
      object (
        ("operation", get "operation" args or_else str "fetch")
        ∷ ("entityType", entity_type)
        ∷ ("identifier", wrap_identifier (get "identifier" args))
        ∷ ("identifierType", wrap_if_present (get "identifierType" args))
        ∷ ("timeFrame", wrap_if_present (get "timeFrame" args))
        ∷ ("filters", present_filters (get "filters" args))
        ∷ ("format", wrap_if_present (get "format" args))
        ∷ ("countOnly", wrapped (bool (truthy (get "countOnly" args))) false)
        ∷ ("limit", wrap_if_present (get "limit" args))
        ∷ []))
]

abbrev keep_defined : String → Value → Fields → Fields
keep_defined name undefined rest = rest
keep_defined name v rest = field name v rest

-- if (args[name] !== undefined) normalizedArgs[name] = args[name], one name after the other
abbrev defined_fields : List String → Value → Fields
defined_fields [] args = end
defined_fields (name ∷ names) args = keep_defined name (get name args) (defined_fields names args)

-- The operation, the entity type, and the fields that are passed through.
abbrev passed_through : (operation : String) → List String → Value → Result Value
passed_through operation names args = elim (normalize_entity_type (get "entityType" args)) [
  | err message ↦ err message
  | ok entity_type ↦ ok (
      obj (
        field "operation" (get "operation" args or_else str operation)
          (field "entityType" entity_type (defined_fields names args))))
]

unfoldable pub normalize_create_entity_args : Value → Result Value
unfolding normalize_entity_type get
normalize_create_entity_args args =
    passed_through "create"
      ("record" ∷ "fields" ∷ "records" ∷ "parentId" ∷ "idempotencyKey" ∷ "format" ∷ []) args

unfoldable pub normalize_update_entity_args : Value → Result Value
unfolding normalize_entity_type get
normalize_update_entity_args args =
    passed_through "update"
      ("identifier" ∷ "identifierType" ∷ "record" ∷ "fields" ∷ "records" ∷ "idempotencyKey"
        ∷ "format" ∷ [])
      args

-- toolCall.arguments?.input || toolCall.arguments || {}
abbrev original_args : Value → Value
original_args args = get "input" args or_else (args or_else object [])

unfoldable pub normalize_args : (tool : String) → Value → Result Value
unfolding normalize_fetch_entity_args normalize_create_entity_args normalize_update_entity_args get
normalize_args tool args =
    if tool == "fetch_entity"
    then normalize_fetch_entity_args (original_args args)
    else if tool == "create_entity"
    then normalize_create_entity_args (original_args args)
    else if tool == "update_entity"
    then normalize_update_entity_args (original_args args)
    else ok args

abbrev outlook_models : List (String × String)
outlook_models =
    ("Message", "OutlookMessage")
    ∷ ("Event", "OutlookEvent")
    ∷ ("Contact", "OutlookContact")
    ∷ ("MailFolder", "OutlookMailFolder")
    ∷ ("Calendar", "OutlookCalendar")
    ∷ []

abbrev default_models : List (String × String)
default_models =
    ("fetch_emails", "GmailThread")
    ∷ ("fetch_calendar_events", "CalendarEvent")
    ∷ ("fetch_notion_page", "NotionPage")
    ∷ []

-- A model of the table for a key that is text.
abbrev model_for : Value → Option String
model_for (str s) = lookup_text s outlook_models
model_for _ = none

unfoldable pub model_by_type : (tool : String) → (entity_type : Value) → Option String
model_by_type tool entity_type =
    if tool == "fetch_entity" && truthy entity_type
    then some "SalesforceEntity"
    else if tool == "fetch_outlook_entity" && truthy entity_type
    then model_for entity_type
    else lookup_text tool default_models

abbrev configured_model : Option ToolConfig → Option String
configured_model none = none
configured_model (some tool) = elim tool.cache_model [
  | none ↦ none
  | some model ↦ if is_empty model then none else some model
]

unfoldable pub resolve_model : (tool : String) → Option ToolConfig → Value → Option String
unfolding model_by_type get
resolve_model tool config args = elim (configured_model config) [
  | some model ↦ some model
  | none ↦ model_by_type tool (get "entityType" args or_else get "entityType" (get "input" args))
]
