-- ===== src/Plans/Launcher.antt =====
-- action-launcher.service.ts: ActionLauncherService. The map of maps is an association list of
-- association lists in the order of insertion. An action that the client is sent and that is changed
-- later is one object; what is sent is a copy of it at that time. The beat engine, which may phrase
-- the question for parameters, answers with a text or nothing.
pub mod Collection
pub mod Parameters
pub mod Missing
pub mod Filling
pub mod Stored
use app_intent_system_orches.Base.{
  ℕ, String, Bool, true, false, not, ◌&&◌, ◌||◌, Option, none, some, List, [], ◌∷◌, ◌++◌, any, map,
  includes, length, ltb, ◌==◌, nat_eq, string_eq, is_empty, is_some, trim, concat, show_nat,
  lookup_text, replace_char, Result, ok, err, if◌then◌else◌,
}
use app_intent_system_orches.Js.{
  Value, undefined, null, bool, num, str, arr, obj, object, get, ◌or_else◌, to_text,
}
use app_intent_system_orches.Services.Runs.{ResultStatus, ToolResult, ToolCall}
use app_intent_system_orches.Cortex.Tools.{Orchestrator}
use app_intent_system_orches.Catalog.Config.{
  Categories, InputSchema, Property, PropertyType, single, union, get_tool_input_schema,
  get_tool_display_name, is_required, text_or, find_missing_required_params,
  find_conditionally_missing_params,
}

pub data Status : Type 0 where
  collecting_parameters ready executing completed failed : Status

pub record Parameter : Type 0 where
  pub name : String
  pub description : String
  pub required : Bool
  pub type : String
  pub current_value : Value
  pub hint : Option String

pub record Action : Type 0 where
  pub id : String
  pub arguments : Value
  pub tool_name : String
  pub description : String
  pub parameters : List Parameter
  pub missing_parameters : List String
  pub status : Status
  pub message_id : String
  pub icon : String
  pub result : Value
  pub error : Option String
  pub error_details : Value
  pub tool_display_name : String

-- A step of the plan that the planner made.
pub record PlanItem : Type 0 where
  pub id : String
  pub intent : String
  pub tool : String
  pub arguments : Value

abbrev pub Actions : Type 0
Actions = List (String × Action)

abbrev pub Launcher : Type 0
Launcher = List (String × Actions)

-- Map.prototype.set
abbrev pub map_set {ℓ} : {A : Type ℓ} → String → A → List (String × A) → List (String × A)
map_set k v [] = (k, v) ∷ []
map_set k v ((j, w) ∷ m) = if j == k then (j, v) ∷ m else (j, w) ∷ map_set k v m

-- Map.prototype.delete
abbrev pub map_delete {ℓ} : {A : Type ℓ} → String → List (String × A) → List (String × A)
map_delete k [] = []
map_delete k ((j, w) ∷ m) = if j == k then m else (j, w) ∷ map_delete k m

abbrev pub or_no_actions : Option Actions → Actions
or_no_actions none = []
or_no_actions (some actions) = actions

abbrev pub actions_of : String → Launcher → Actions
actions_of session_id launcher = or_no_actions (lookup_text session_id launcher)

abbrev pub get_action : String → String → Launcher → Option Action
get_action session_id action_id launcher = lookup_text action_id (actions_of session_id launcher)

-- The action, where it is stored under the session and its id.
abbrev pub store_action : String → String → Action → Launcher → Launcher
store_action session_id action_id action launcher =
    map_set session_id (map_set action_id action (actions_of session_id launcher)) launcher

unfoldable pub get_active_actions : String → Launcher → List Action
get_active_actions session_id launcher = map (λ entry. entry.1) (actions_of session_id launcher)

unfoldable pub clear_actions : String → Launcher → Launcher
clear_actions session_id launcher = map_delete session_id launcher

abbrev icons : List (String × String)
icons =
    ("fetch_emails", "mail")
    ∷ ("sendEmail", "send")
    ∷ ("createCalendarEvent", "calendar")
    ∷ ("updateSalesforceContact", "contact")
    ∷ ("searchContacts", "search")
    ∷ []

-- toolName.replace(/_/g, ' ')
abbrev pub spaced : String → String
spaced name = replace_char b'_' " " name

unfoldable pub create_action :
    Categories
    → (message_id action_id : String) → (arguments : Value) → (tool_name description : String)
    → List Parameter
    → (missing : List String) → Status
    → Action
unfolding get_tool_display_name replace_char
create_action configs message_id action_id arguments tool_name description parameters missing
      status =
    record {
      id = action_id;
      arguments = arguments;
      tool_name = tool_name;
      description = description;
      parameters = parameters;
      missing_parameters = missing;
      status = status;
      message_id = message_id;
      icon = text_or (lookup_text tool_name icons) "settings";
      result = null;
      error = none;
      error_details = undefined;
      tool_display_name = text_or (get_tool_display_name configs tool_name) (spaced tool_name);
    }

-- [...new Set(xs)]
abbrev pub distinct_from : List String → List String → List String
distinct_from seen [] = seen
distinct_from seen (x ∷ xs) = distinct_from (if includes seen x then seen else seen ++ (x ∷ [])) xs

abbrev pub distinct : List String → List String
distinct xs = distinct_from [] xs

unfoldable pub missing_params : Categories → PlanItem → List String
missing_params configs item =
    let args = item.arguments or_else object [] in
    distinct (
      find_missing_required_params configs item.tool args
      ++ find_conditionally_missing_params configs item.tool args)

abbrev pub planned_status : List String → Status
planned_status [] = ready
planned_status (name ∷ names) = collecting_parameters

-- The action that is stored for an item of the plan.
unfoldable pub planned_action : Categories → (message_id : String) → PlanItem → Action
unfolding missing_params
planned_action configs message_id item =
    create_action configs message_id item.id (item.arguments or_else object []) item.tool
      item.intent [] (missing_params configs item) (planned_status (missing_params configs item))

-- What the client is sent.
pub data Chunk : Type 0 where
  collection_required confirmation_required : List Action → (analysis message_id : String) → Chunk

abbrev has_properties : Categories → String → Bool
has_properties configs tool = elim (get_tool_input_schema configs tool) [
  | none ↦ false
  | some schema ↦ ltb 0 (length schema.properties)
]

abbrev pub is_collecting : Action → Bool
is_collecting action = elim action.status [ collecting_parameters ↦ true | _ ↦ false ]

-- An action that is ready is put up for confirmation in a plan of several steps.
abbrev asks_confirmation : Categories → ℕ → PlanItem → Action → Bool
asks_confirmation configs count item action =
    not (is_collecting action) && (has_properties configs item.tool && ltb 1 count)

abbrev analysis_of : List Action → String
analysis_of [] = "0 actions are ready. Click Execute to proceed."
analysis_of (action ∷ []) =
    concat
      ("The '" ∷ action.tool_display_name ∷ "' action is ready. Click Execute to proceed." ∷ [])
analysis_of actions =
    concat (show_nat (length actions) ∷ " actions are ready. Click Execute to proceed." ∷ [])

module _ (configs : Categories) (session_id message_id : String) where
  -- The loop: the stored actions, those that need parameters, and those to confirm.
  unfoldable pub store_plan : ℕ → List PlanItem → Launcher → Launcher × List Action × List Action
  unfolding planned_action get_tool_input_schema
  store_plan count [] launcher = (launcher, [], [])
  store_plan count (item ∷ items) launcher =
      let action = planned_action configs message_id item in
      let (launcher', needing, confirming) =
        store_plan count items (store_action session_id item.id action launcher) in
      (
        launcher',
        (if is_collecting action then action ∷ needing else needing),
        (if asks_confirmation configs count item action then action ∷ confirming else confirming),
      )

  abbrev collection_chunks : List Action → List Chunk
  collection_chunks [] = []
  collection_chunks (action ∷ actions) =
      collection_required (action ∷ actions)
        (concat
          ("I need a bit more information for the '" ∷ action.tool_display_name ∷ "' action." ∷ []))
        message_id
      ∷ []

  abbrev confirmation_chunks : List Action → List Chunk
  confirmation_chunks [] = []
  confirmation_chunks (action ∷ actions) =
      confirmation_required (action ∷ actions) (analysis_of (action ∷ actions)) message_id ∷ []

  unfoldable pub process_action_plan : List PlanItem → Launcher → Launcher × List Chunk
  unfolding store_plan show_nat
  process_action_plan plan launcher =
      let (launcher', needing, confirming) = store_plan (length plan) plan launcher in
      (launcher', collection_chunks needing ++ confirmation_chunks confirming)
