-- ===== src/Plans/Launcher/Collection.antt =====
-- action-launcher.service.ts: initiateServerSideParameterCollection, which asks the client for
-- parameters.
use app_intent_system_orches.Base.{
  String, true, Option, none, some, List, [], ◌∷◌, map, nat_eq, string_eq, is_empty, trim, concat,
  replace_char, if◌then◌else◌,
}
use app_intent_system_orches.Js.{Value, get}
use app_intent_system_orches.Catalog.Config.{
  Categories, InputSchema, Property, PropertyType, single, union, get_tool_input_schema,
  is_required, text_or,
}
use app_intent_system_orches.Plans.Launcher.{
  Action, Parameter, Status, Launcher, create_action, store_action, spaced,
}

abbrev piped : List String → String
piped [] = ""
piped (s ∷ []) = s
piped (s ∷ ss) = concat (s ∷ "|" ∷ piped ss ∷ [])

abbrev type_text : PropertyType → String
type_text (single name) = text_or (some name) "string"
type_text (union names) = piped names

-- A parameter for the client, from the schema.
abbrev parameter_of : InputSchema → Value → String × Property → Parameter
parameter_of schema args (name, property) = record {
  name = name;
  description = elim property.prompt [
    | none ↦ elim property.description [ none ↦ name | some description ↦ description ]
    | some prompt ↦ prompt
  ];
  required = is_required schema name;
  type = type_text property.type;
  current_value = get name args;
  hint = property.hint;
}

-- A parameter for the client, of a tool without a schema.
abbrev parameter_named : Value → String → Parameter
parameter_named args name = record {
  name = name;
  description = concat ("Missing: " ∷ name ∷ []);
  required = true;
  type = "string";
  current_value = get name args;
  hint = none;
}

-- a.join(', ')
abbrev pub comma_separated : List String → String
comma_separated [] = ""
comma_separated (s ∷ []) = s
comma_separated (s ∷ ss) = concat (s ∷ ", " ∷ comma_separated ss ∷ [])

-- A question that the beat engine phrased, unless it is blank.
abbrev phrased : Option String → String → String
phrased none question = question
phrased (some prompt) question = if is_empty (trim prompt) then question else prompt

abbrev client_parameters : Categories → String → List String → Value → List Parameter
client_parameters configs tool missing args = elim (get_tool_input_schema configs tool) [
  | none ↦ map (parameter_named args) missing
  | some schema ↦ map (parameter_of schema args) schema.properties
]

-- The action that asks the client for parameters, and the launcher that stores it.
unfoldable pub initiate_server_side_parameter_collection :
    Categories
    → (prompt : Option String) → (session_id message_id action_id tool : String)
    → (missing : List String) → (args : Value) → Launcher
    → Action × Launcher
unfolding get_tool_input_schema create_action get trim replace_char
initiate_server_side_parameter_collection configs prompt session_id message_id action_id tool
      missing args launcher =
    let question = phrased prompt (
      concat (
        "I need a bit more information for the '"
        ∷ spaced tool
        ∷ "' action. Specifically, I'm missing: "
        ∷ comma_separated missing
        ∷ ". Can you provide these?"
        ∷ [])) in
    let action =
      create_action configs message_id action_id args tool question
        (client_parameters configs tool missing args) missing Status.collecting_parameters in
    (action, store_action session_id action_id action launcher)
