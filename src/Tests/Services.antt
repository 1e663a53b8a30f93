-- ===== src/Tests/Services.antt =====
-- The theorems on plans, runs and sessions at concrete inputs.
use app_intent_system_orches.Base.{
  arith, ◌≡◌, refl, String, true, false, none, some, List, [], ◌∷◌, every, includes, string_eq,
  nat_eq,
}
use app_intent_system_orches.Js.{undefined, str}
use app_intent_system_orches.Services.Decision.{
  PlannedAction, PlanAnalysis, should_auto_execute, analyze_plan, is_only, is_harmless,
  should_auto_execute-is_only,
}
use app_intent_system_orches.Services.Runs.{
  Step, ToolResult, ResultStatus, PlanRun, RunStatus, has_result, finalize_run,
}
use app_intent_system_orches.Services.Runs.Finalizing.{finalize_run_cases}
use app_intent_system_orches.Services.Runs.Recording.{record_all, every-record_all}
use app_intent_system_orches.Tests.Sets.{logged_sets}
use app_intent_system_orches.Services.Sessions.{session_key, get_active_sessions_for_user}
use app_intent_system_orches.Services.Sessions.Membership.{
  SessionEvent, connects, disconnects, follow_events, lasts, active_until,
  get_active_sessions-active_until,
}

abbrev actions : List PlannedAction
actions = record { name = "fetch_emails"; status = none } ∷ []

should_auto_execute-is_only_example :
    (should_auto_execute (analyze_plan actions)).should_auto_execute ≡ is_only is_harmless actions
should_auto_execute-is_only_example = should_auto_execute-is_only actions

abbrev analysis : PlanAnalysis
analysis = record {
  action_count = 2;
  has_missing_params = true;
  is_single_cache_tool = false;
  is_destructive = false;
  tool_names = "a" ∷ "b" ∷ [];
}

abbrev step : String → Step
step id = record {
  step_id = some id;
  tool_call = record {
    id = id;
    name = "fetch_emails";
    arguments = undefined;
    session_id = "s";
    user_id = "ann";
  };
  status = "pending";
  started_at = "";
  finished_at = none;
  result = none;
}

abbrev result_of : ResultStatus → ToolResult
result_of status = record {
  status = status;
  tool_name = "fetch_emails";
  data_value = str "x";
  error = none;
  error_details = undefined;
}

abbrev plan_run : PlanRun
plan_run = record {
  id = "run_1";
  plan_id = "plan_1";
  session_id = "s";
  user_id = "ann";
  connection_id = none;
  user_input = "mail";
  context_messages = none;
  status = RunStatus.pending;
  started_at = "t0";
  initiated_by = "assistant";
  completed_at = "";
  parent_run_id = "";
  tool_execution_plan = step "a" ∷ step "b" ∷ [];
  assistant_response = none;
}

finalize_run_cases_example : finalize_run "t1" plan_run ≡ plan_run
finalize_run_cases_example = finalize_run_cases "t1" plan_run

abbrev results : List (String × String × ToolResult)
results =
    ("t1", "b", result_of ResultStatus.success) ∷ ("t2", "a", result_of ResultStatus.failed) ∷ []

every-record_all_example : every has_result (record_all results plan_run).tool_execution_plan ≡ true
every-record_all_example = every-record_all results plan_run (refl, (refl, tt))

abbrev events : List SessionEvent
events =
    connects 1000 "ann" "s1" ∷ connects 3600000 "ann" "s2" ∷ disconnects 4000000 "ann" "s1" ∷ []

-- Two hours after the last session connected, none is active.
get_active_sessions-active_until_example :
    includes
      (get_active_sessions_for_user logged_sets 10800000 "ann"
        (follow_events logged_sets events []))
      "s2"
    ≡ lasts 10800000 (active_until (session_key "ann") "s2" events none)
get_active_sessions-active_until_example =
    get_active_sessions-active_until logged_sets events 10800000 "ann" "s2" []
      (omega arith, (omega arith, (omega arith, omega arith))) (λ t. refl)
