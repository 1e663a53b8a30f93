-- ===== src/Plans/Progress.antt =====
-- services/PlanExecutorService.ts: what becomes of one step.
use app_intent_system_orches.Base.{
  String, Bool, true, false, ◌||◌, Option, none, some, [], ◌==◌, string_eq, if◌then◌else◌,
}
use app_intent_system_orches.Js.{Value, undefined, null, object, str, ◌or_else◌}
use app_intent_system_orches.Services.Runs.{Step, ToolResult, ResultStatus}
use app_intent_system_orches.Plans.Launcher.{Action, Status}

-- How a step is left: the loop goes on, or the run is returned.
pub data Turn : Type 0 where
  goes_on stops : Turn

-- status === 'pending' || status === 'ready'
abbrev pub is_open : String → Bool
is_open status = status == "pending" || status == "ready"

abbrev pub with_status : String → Step → Step
with_status status step = record step { status = status }

abbrev pub with_arguments : Value → Step → Step
with_arguments args step = record step { tool_call = record step.tool_call { arguments = args } }

abbrev pub status_text : Status → String
status_text Status.collecting_parameters = "collecting_parameters"
status_text Status.ready = "ready"
status_text Status.executing = "executing"
status_text Status.completed = "completed"
status_text Status.failed = "failed"

abbrev pub is_completed : Status → Bool
is_completed Status.completed = true
is_completed _ = false

abbrev pub is_failed : Status → Bool
is_failed Status.failed = true
is_failed _ = false

abbrev pub step_result : Action → ToolResult
step_result action = record {
  status = if is_completed action.status then ResultStatus.success else ResultStatus.failed;
  tool_name = action.tool_name;
  data_value = action.result;
  error = action.error;
  error_details = action.error_details or_else null;
}

abbrev pub settled : (now : String) → Action → Step → Step
settled now action step = record step {
  status = status_text action.status;
  result = some (step_result action);
  finished_at = some now;
}

abbrev pub id_text : Option String → String
id_text none = "undefined"
id_text (some id) = id

-- `${error}` of an error that may be missing
abbrev pub error_text : Option String → String
error_text none = "undefined"
error_text (some m) = m

abbrev pub error_value : Option String → Value
error_value none = undefined
error_value (some m) = str m

abbrev pub data_or_empty : Option ToolResult → Value
data_or_empty none = object []
data_or_empty (some result) = result.data_value or_else object []
