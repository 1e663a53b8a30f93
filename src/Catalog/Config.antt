-- ===== src/Catalog/Config.antt =====
-- services/tool/ToolConfigManager.ts. The categories stand in the order in which they were first
-- met. Arguments of tools are untyped; the schema checker (ajv) is a function. What the program
-- does to a schema before it sends it to a language model is left out.
pub mod Lookup
use app_intent_system_orches.Base.{
  String, Bool, true, false, not, ◌&&◌, ◌||◌, Option, none, some, List, [], ◌∷◌, ◌++◌, any, keep,
  includes, map, ◌==◌, string_eq, lookup_text, is_empty, trim, to_lower_case, concat, Result, ok,
  err, if◌then◌else◌,
}
use app_intent_system_orches.Js.{Value, undefined, null, str, get, truthy}

pub data PropertyType : Type 0 where
  single : String → PropertyType
  union : List String → PropertyType

pub record Property : Type 0 where
  pub type : PropertyType
  pub description : Option String
  pub prompt : Option String
  pub hint : Option String

-- `schema` is the whole schema, for the schema checker.
pub record InputSchema : Type 0 where
  pub properties : List (String × Property)
  pub required : Option (List String)
  pub schema : Value

pub record ToolConfig : Type 0 where
  pub name : String
  pub description : String
  pub category : String
  pub display_name : Option String
  pub provider_config_key : Option String
  pub parameters : Option InputSchema
  pub source : Option String
  pub cache_model : Option String

-- An entry of the array of tools in the configuration file.
pub record ToolEntry : Type 0 where
  pub name : String
  pub description : String
  pub category : Option String
  pub display_name : Option String
  pub provider_config_key : Option String
  pub parameters : Option InputSchema
  pub source : Option String
  pub cache_model : Option String

abbrev pub Categories : Type 0
Categories = List (String × List ToolConfig)

-- The configuration file: a flat array of tools, or the categories as they are.
pub data ConfigFile : Type 0 where
  flat : List ToolEntry → ConfigFile
  legacy : Categories → ConfigFile
  unreadable : (message : String) → ConfigFile

-- a || b, where the empty text counts as none
abbrev pub text_or : Option String → String → String
text_or none other = other
text_or (some s) other = if is_empty s then other else s

abbrev pub tool_of : ToolEntry → ToolConfig
tool_of entry = record {
  name = entry.name;
  description = entry.description;
  category = text_or entry.category "General";
  display_name = some (text_or entry.display_name entry.name);
  provider_config_key = entry.provider_config_key;
  parameters = entry.parameters;
  source = entry.source;
  cache_model = entry.cache_model;
}

-- this.toolConfigs[category].push(tool), where a new category starts empty
unfoldable pub push_tool : String → ToolConfig → Categories → Categories
push_tool category tool [] = (category, tool ∷ []) ∷ []
push_tool category tool ((c, tools) ∷ rest) =
    if c == category
    then (c, tools ++ (tool ∷ [])) ∷ rest
    else (c, tools) ∷ push_tool category tool rest

unfoldable pub group_tools : List ToolEntry → Categories → Categories
group_tools [] configs = configs
group_tools (entry ∷ entries) configs =
    group_tools entries (push_tool (tool_of entry).category (tool_of entry) configs)

-- The state that the file gives; a file that cannot be read throws.
unfoldable pub load_tool_configs : ConfigFile → Categories → Result Categories
load_tool_configs (flat entries) configs = ok (group_tools entries configs)
load_tool_configs (legacy categories) configs = ok categories
load_tool_configs (unreadable message) configs = err message

-- After a reload that throws, no tool is left.
unfoldable pub reload : ConfigFile → Categories → Option String × Categories
unfolding load_tool_configs
reload file configs = elim (load_tool_configs file []) [
  | ok loaded ↦ (none, loaded)
  | err message ↦ (some message, [])
]

unfoldable pub get_all_tools : Categories → List ToolConfig
get_all_tools [] = []
get_all_tools ((c, tools) ∷ rest) = tools ++ get_all_tools rest

unfoldable pub find_tool : String → List ToolConfig → Option ToolConfig
find_tool name [] = none
find_tool name (tool ∷ tools) = if tool.name == name then some tool else find_tool name tools

abbrev pub get_tool_definition : Categories → String → Option ToolConfig
get_tool_definition configs name = find_tool name (get_all_tools configs)

abbrev pub tool_exists : Categories → String → Bool
tool_exists configs name = any (λ tool. tool.name == name) (get_all_tools configs)

unfoldable pub get_tool_input_schema : Categories → String → Option InputSchema
get_tool_input_schema configs name = elim (get_tool_definition configs name) [
  | none ↦ none
  | some tool ↦ tool.parameters
]

-- tool?.display_name || tool?.name || null
unfoldable pub get_tool_display_name : Categories → String → Option String
get_tool_display_name configs name = elim (get_tool_definition configs name) [
  | none ↦ none
  | some tool ↦
      let shown = text_or tool.display_name tool.name in if is_empty shown then none else some shown
]

abbrev pub get_tools_by_category : Categories → String → List ToolConfig
get_tools_by_category configs category = elim (lookup_text category configs) [
  | none ↦ []
  | some tools ↦ tools
]

unfoldable pub get_tools_by_categories : Categories → List String → List ToolConfig
get_tools_by_categories configs [] = []
get_tools_by_categories configs (category ∷ categories) =
    get_tools_by_category configs category ++ get_tools_by_categories configs categories

unfoldable pub normalized : String → String
unfolding trim to_lower_case
normalized key = to_lower_case (trim key)

abbrev pub has_provider : String → ToolConfig → Bool
has_provider key tool = elim tool.provider_config_key [
  | none ↦ false
  | some k ↦ normalized k == key
]

unfoldable pub get_tools_by_provider : Categories → String → List ToolConfig
unfolding normalized
get_tools_by_provider configs key = keep (has_provider (normalized key)) (get_all_tools configs)

-- value === undefined || value === null || value === ''
abbrev pub is_blank : Value → Bool
is_blank undefined = true
is_blank null = true
is_blank (str s) = is_empty s
is_blank _ = false

unfoldable pub find_missing_required_params : Categories → String → Value → List String
unfolding get
find_missing_required_params configs name args = elim (get_tool_input_schema configs name) [
  | none ↦ []
  | some schema ↦ elim schema.required [
    | none ↦ []
    | some names ↦ keep (λ param. is_blank (get param args)) names
  ]
]

abbrev pub is_required : InputSchema → String → Bool
is_required schema name = elim schema.required [ none ↦ false | some names ↦ includes names name ]

abbrev pub is_text : Option String → Bool
is_text none = false
is_text (some s) = not (is_empty s)

-- A parameter that need not be there, but has a prompt or a hint and no value.
abbrev pub is_wanted : InputSchema → Value → String × Property → Bool
is_wanted schema args (name, property) =
    not (is_required schema name)
    && ((is_text property.prompt || is_text property.hint) && not (truthy (get name args)))

abbrev pub names_of : List (String × Property) → List String
names_of ps = map (λ p. p.0) ps

unfoldable pub find_conditionally_missing_params : Categories → String → Value → List String
unfolding get
find_conditionally_missing_params configs name args = elim (get_tool_input_schema configs name) [
  | none ↦ []
  | some schema ↦ names_of (keep (is_wanted schema args) schema.properties)
]

-- The schema checker answers with the text of its errors, or nothing.
abbrev pub SchemaChecker : Type 0
SchemaChecker = Value → Value → Option String

-- The message of the error that is thrown, if one is.
unfoldable pub validate_tool_args : SchemaChecker → Categories → String → Value → Option String
validate_tool_args check configs name args = elim (get_tool_input_schema configs name) [
  | none ↦ some (concat ("No schema found for tool: " ∷ name ∷ []))
  | some schema ↦ check schema.schema args
]
