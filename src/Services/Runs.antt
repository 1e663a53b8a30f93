-- ===== src/Services/Runs.antt =====
-- services/tool/RunManager.ts, on the types of services/tool/run.types.ts. A method that changes
-- the run in place returns the changed run. Times are the texts of `toISOString`; arguments and
-- results of tools stay untyped. Texts are measured in characters.
pub mod Recording
pub mod Finalizing
use Prim.Native.String.{count, ◌++◌}
use app_intent_system_orches.Base.{
  ℕ, zero, suc, ◌+◌, ◌-◌, String, Bool, true, false, not, Option, none, some, List, [], ◌∷◌, length,
  drop, get_elem?, map, keep, every, is_some, leb, ltb, ◌==◌, nat_eq, string_eq, concat, show_nat,
  slice_text, is_empty, if◌then◌else◌,
}
use app_intent_system_orches.Js.{Value}

pub data ResultStatus : Type 0 where
  success failed : ResultStatus

pub record ToolResult : Type 0 where
  pub status : ResultStatus
  pub tool_name : String
  pub data_value : Value
  pub error : Option String
  pub error_details : Value

pub record ToolCall : Type 0 where
  pub id : String
  pub name : String
  pub arguments : Value
  pub session_id : String
  pub user_id : String

pub record Step : Type 0 where
  pub step_id : Option String
  pub tool_call : ToolCall
  pub status : String
  pub started_at : String
  pub finished_at : Option String
  pub result : Option ToolResult

pub data RunStatus : Type 0 where
  pending completed failed running success partial_success : RunStatus

pub record ContextMessage : Type 0 where
  pub role : String
  pub content : Option String
  pub tool_calls : Value
  pub tool_call_id : Option String
  pub name : Option String

pub record PlanRun : Type 0 where
  pub id : String
  pub plan_id : String
  pub session_id : String
  pub user_id : String
  pub connection_id : Option String
  pub user_input : String
  pub context_messages : Option (List ContextMessage)
  pub status : RunStatus
  pub started_at : String
  pub initiated_by : String
  pub completed_at : String
  pub parent_run_id : String
  pub tool_execution_plan : List Step
  pub assistant_response : Option String

pub record RunParams : Type 0 where
  pub session_id : String
  pub user_id : String
  pub user_input : String
  pub tool_execution_plan : List Step
  pub context_messages : Option (List ContextMessage)
  pub connection_id : Option String

-- msg.content ? … : null, where the empty text counts as none
unfoldable pub truncate_content : Option String → Option String
unfolding slice_text
truncate_content none = none
truncate_content (some content) =
    if is_empty content
    then none
    else some (slice_text 500 content ++ (if ltb 500 (count content) then "..." else ""))

abbrev truncate : ContextMessage → ContextMessage
truncate message = record message { content = truncate_content message.content }

-- a.slice(-n)
abbrev pub last_of {ℓ} : {A : Type ℓ} → ℕ → List A → List A
last_of n xs = drop (length xs - n) xs

abbrev pub give_id : ℕ → Step → Step
give_id i step = elim step.step_id [
  | some id ↦ step
  | none ↦ record step { step_id = some (concat ("step_" ∷ show_nat (i + 1) ∷ [])) }
]

-- The steps with ids, where the first has the index `i`.
unfoldable pub with_step_ids : ℕ → List Step → List Step
with_step_ids i [] = []
with_step_ids i (step ∷ steps) = give_id i step ∷ with_step_ids (i + 1) steps

abbrev map_option {ℓ κ} : {A : Type ℓ} {B : Type κ} → (A → B) → Option A → Option B
map_option f none = none
map_option f (some a) = some (f a)

-- `uuid` and `plan_uuid` are the two random ids, `now` the time.
unfoldable pub create_run : (uuid plan_uuid now : String) → RunParams → PlanRun
unfolding with_step_ids truncate_content
create_run uuid plan_uuid now params = record {
  id = concat ("run_" ∷ uuid ∷ []);
  plan_id = concat ("plan_" ∷ plan_uuid ∷ []);
  session_id = params.session_id;
  user_id = params.user_id;
  connection_id = params.connection_id;
  user_input = params.user_input;
  context_messages = map_option (λ ms. last_of 10 (map truncate ms)) params.context_messages;
  status = pending;
  started_at = now;
  initiated_by = "assistant";
  completed_at = "";
  parent_run_id = "";
  tool_execution_plan = with_step_ids 0 params.tool_execution_plan;
  assistant_response = none;
}

abbrev pub call_is : String → Step → Bool
call_is id step = step.tool_call.id == id

-- plan.find(t => t.toolCall.id === id), with what is then done to the step that was found.
abbrev pub update_first : String → (Step → Step) → List Step → List Step
update_first id f [] = []
update_first id f (step ∷ steps) =
    if call_is id step then f step ∷ steps else step ∷ update_first id f steps

abbrev pub has_call : String → List Step → Bool
has_call id [] = false
has_call id (step ∷ steps) = if call_is id step then true else has_call id steps

-- plan.findIndex(t => t.toolCall.id === id), where `none` is -1
abbrev pub find_index : String → List Step → Option ℕ
find_index id [] = none
find_index id (step ∷ steps) =
    let later = find_index id steps in if call_is id step then some 0 else map_option suc later

abbrev pub update_at : ℕ → (Step → Step) → List Step → List Step
update_at i f [] = []
update_at zero f (step ∷ steps) = f step ∷ steps
update_at (suc i) f (step ∷ steps) = step ∷ update_at i f steps

abbrev pub outcome_text : ResultStatus → String
outcome_text success = "completed"
outcome_text failed = "failed"

-- A step whose tool has returned.
abbrev pub finish : String → ToolResult → Step → Step
finish now result step = record step {
  status = outcome_text result.status;
  result = some result;
  finished_at = some now;
}

unfoldable pub add_tool_result : (now : String) → PlanRun → String → ToolResult → PlanRun
add_tool_result now run id result = elim (find_index id run.tool_execution_plan) [
  | none ↦ run
  | some i ↦ record run {
    tool_execution_plan = update_at i (finish now result) run.tool_execution_plan;
  }
]

unfoldable pub start_tool_execution : (now : String) → PlanRun → String → PlanRun
start_tool_execution now run id =
    if has_call id run.tool_execution_plan
    then record run {
      tool_execution_plan =
          update_first id (λ step. record step { started_at = now; status = "running" })
            run.tool_execution_plan;
      status = running;
    }
    else run

unfoldable pub record_tool_result : (now : String) → PlanRun → String → ToolResult → PlanRun
record_tool_result now run id result =
    if has_call id run.tool_execution_plan
    then record run {
      tool_execution_plan = update_first id (finish now result) run.tool_execution_plan;
    }
    else run

unfoldable pub add_assistant_response : PlanRun → String → PlanRun
add_assistant_response run response = record run { assistant_response = some response }

abbrev pub has_result : Step → Bool
has_result step = is_some step.result

-- t.result?.status of every step, without the missing ones
abbrev pub statuses : List Step → List ResultStatus
statuses [] = []
statuses (step ∷ steps) = elim step.result [
  | none ↦ statuses steps
  | some result ↦ result.status ∷ statuses steps
]

abbrev pub is_success : ResultStatus → Bool
is_success success = true
is_success failed = false

-- The status that the results of the tools give.
abbrev pub final_status : List ResultStatus → RunStatus
final_status results =
    let successes = length (keep is_success results) in
    if length results == 0
    then failed
    else if successes == length results
    then completed
    else if ltb 0 successes
    then partial_success
    else failed

unfoldable pub finalize_run : (now : String) → PlanRun → PlanRun
finalize_run now run =
    if every has_result run.tool_execution_plan
    then record run { completed_at = now; status = final_status (statuses run.tool_execution_plan) }
    else run
