-- ===== src/Plans/Launcher/Parameters.antt =====
-- action-launcher.service.ts: updateParameterValue and executeAction.
use app_intent_system_orches.Base.{
  String, Bool, true, false, not, ◌&&◌, Option, none, some, List, [], ◌∷◌, ◌++◌, any, includes,
  ◌==◌, string_eq, is_empty, trim, concat, Result, ok, err, if◌then◌else◌,
}
use app_intent_system_orches.Js.{Value, undefined, null, object, truthy, ◌or_else◌, to_text}
use app_intent_system_orches.Services.Runs.{ResultStatus, ToolResult}
use app_intent_system_orches.Cortex.Tools.{Orchestrator}
use app_intent_system_orches.Plans.Launcher.{
  Action, Parameter, Status, Launcher, get_action, store_action,
}

-- parameters.findIndex(p => p.name === paramName), the parameter that is found
abbrev pub find_parameter : String → List Parameter → Option Parameter
find_parameter name [] = none
find_parameter name (p ∷ ps) = if p.name == name then some p else find_parameter name ps

-- parameters[paramIndex].currentValue = value
abbrev pub set_parameter : String → Value → List Parameter → List Parameter
set_parameter name value [] = []
set_parameter name value (p ∷ ps) =
    if p.name == name
    then record p { current_value = value } ∷ ps
    else p ∷ set_parameter name value ps

-- value !== null && value !== undefined && String(value).trim() !== ''
unfoldable pub has_value : Value → Bool
unfolding to_text trim
has_value undefined = false
has_value null = false
has_value v = not (is_empty (trim (to_text v)))

-- xs.splice(xs.indexOf(x), 1), where x is there
abbrev pub remove_first : String → List String → List String
remove_first x [] = []
remove_first x (y ∷ ys) = if y == x then ys else y ∷ remove_first x ys

-- The missing parameters after a value was given.
abbrev pub missing_after : Parameter → Value → List String → List String
missing_after p value missing =
    if p.required && (has_value value && includes missing p.name)
    then remove_first p.name missing
    else if p.required && (not (has_value value) && not (includes missing p.name))
    then missing ++ (p.name ∷ [])
    else missing

abbrev pub still_missing : List Parameter → List String → Bool
still_missing parameters missing = any (λ p. p.required && includes missing p.name) parameters

abbrev pub status_for : Bool → Status
status_for true = Status.collecting_parameters
status_for false = Status.ready

-- The action after a value was given to the parameter of the name.
abbrev pub with_value : Parameter → String → Value → Action → Action
with_value p name value action =
    let parameters = set_parameter name value action.parameters in
    let missing = missing_after p value action.missing_parameters in
    record action {
      parameters = parameters;
      missing_parameters = missing;
      status = status_for (still_missing parameters missing);
    }

unfoldable pub give_value : String → Value → Action → Option Action
unfolding has_value
give_value name value action = elim (find_parameter name action.parameters) [
  | none ↦ none
  | some p ↦ some (with_value p name value action)
]

-- The changed action if there is one, and the launcher. That an action has become ready is announced
-- by an event, which is not modelled.
unfoldable pub update_parameter_value :
    (session_id action_id name : String) → Value → Launcher → Option Action × Launcher
update_parameter_value session_id action_id name value launcher =
    elim (get_action session_id action_id launcher) [
      | none ↦ (none, launcher)
      | some action ↦ elim (give_value name value action) [
        | none ↦ (none, launcher)
        | some action' ↦ (some action', store_action session_id action_id action' launcher)
      ]
    ]

-- What `executeAction` is given.
pub record Payload : Type 0 where
  pub action_id : String
  pub tool_name : String
  pub arguments : Value

abbrev pub outcome_status : ResultStatus → Status
outcome_status ResultStatus.success = Status.completed
outcome_status ResultStatus.failed = Status.failed

abbrev error_of : ToolResult → Option String
error_of result = elim result.status [
  | ResultStatus.success ↦ none
  | ResultStatus.failed ↦ result.error
]

abbrev pub finished : ToolResult → Action → Action
finished result action = record action {
  result = result.data_value;
  status = outcome_status result.status;
  error = error_of result;
  error_details =
      if truthy result.error_details then result.error_details else action.error_details;
}

-- What the answer of the tool makes of the action that is executing.
abbrev pub take_answer :
    (session_id action_id : String)
    → Action
    → Launcher
    → Result ToolResult
    → Result Action × Launcher
take_answer session_id action_id action launcher (ok result) = (
  ok (finished result action),
  store_action session_id action_id (finished result action) launcher,
)
take_answer session_id action_id action launcher (err message) = (
  err message,
  store_action session_id action_id
      (record action { status = Status.failed; error = some message; result = null }) launcher,
)

abbrev pub executing : Value → Action → Action
executing args action = record action {
  arguments = args or_else (action.arguments or_else object []);
  status = Status.executing;
}

module _ (orchestrator : Orchestrator) where
  open orchestrator use {World, execute_tool}

  abbrev pub call_tool :
      (session_id user_id : String)
      → Payload
      → (plan_id step_id : String) → Action
      → World
      → Result ToolResult × World
  call_tool session_id user_id payload plan_id step_id action w =
      execute_tool
        (record {
          id = payload.action_id;
          name = payload.tool_name;
          arguments = action.arguments;
          session_id = session_id;
          user_id = user_id;
        })
        plan_id step_id w

  -- The tool is called while the action is stored as executing; nothing else changes the action
  -- meanwhile. The result is the finished action, or the message of the error that is thrown.
  unfoldable pub execute_action :
      (session_id user_id : String)
      → Payload
      → (plan_id step_id : String) → Launcher
      → World
      → Result Action × Launcher × World
  execute_action session_id user_id payload plan_id step_id launcher w =
      elim (get_action session_id payload.action_id launcher) [
        | none ↦ (err (concat ("Action " ∷ payload.action_id ∷ " not found" ∷ [])), launcher, w)
        | some stored ↦
            let action = executing payload.arguments stored in
            let (answer, w') = call_tool session_id user_id payload plan_id step_id action w in
            let (outcome, launcher') =
              take_answer session_id payload.action_id action launcher answer in
            (outcome, launcher', w')
      ]
