-- ===== src/Tests/Plans.antt =====
-- The theorems on plans and their execution at concrete inputs.
use Prim.Native.String.{◌++◌}
use app_intent_system_orches.Base.{
  ℕ, suc, ◌<◌, ◌≡◌, refl, ◌⊎◌, String, true, false, none, some, List, [], ◌∷◌, ◌==◌, if◌then◌else◌,
  string_eq, All, ok, err,
}
use app_intent_system_orches.Js.{Value, undefined, str, object}
use app_intent_system_orches.Services.Runs.{Step, ResultStatus, PlanRun, RunStatus}
use app_intent_system_orches.Cortex.Tools.{Orchestrator}
use app_intent_system_orches.Plans.Launcher.{
  Action, Parameter, Status, PlanItem, Launcher, get_action, store_action, process_action_plan,
}
use app_intent_system_orches.Plans.Launcher.Parameters.{
  update_parameter_value, has_value, status_for,
}
use app_intent_system_orches.Plans.Launcher.Filling.{Updates, unfilled, IsCollected}
use app_intent_system_orches.Plans.Launcher.Stored.{
  follow_updates, follow_updates-unfilled, update-process_action_plan,
}
use app_intent_system_orches.Plans.Placeholders.{ends_line, resolve_text, placeholder_value}
use app_intent_system_orches.Plans.Placeholders.Whole.{value_or_text, resolve_text-whole}
use app_intent_system_orches.Plans.Session.{Helpers, Setting, Sys}
use app_intent_system_orches.Plans.Executor.{execute_plan}
use app_intent_system_orches.Plans.Executor.Marks.{mark_at, finish, opens, plan_of}
use app_intent_system_orches.Plans.Executor.Outcome.{execute_plan_outcome}

abbrev parameter : String → Parameter
parameter name = record {
  name = name;
  description = name;
  required = true;
  type = "string";
  current_value = undefined;
  hint = none;
}

abbrev collecting : Action
collecting = record {
  id = "a";
  arguments = object [];
  tool_name = "send_email";
  description = "";
  parameters = parameter "to" ∷ parameter "body" ∷ [];
  missing_parameters = "to" ∷ "body" ∷ [];
  status = Status.collecting_parameters;
  message_id = "m";
  icon = "send";
  result = undefined;
  error = none;
  error_details = undefined;
  tool_display_name = "Send";
}

collecting-IsCollected : IsCollected collecting
collecting-IsCollected = record {
  settled = refl;
  missing_once = (refl, (refl, tt));
  found = (refl, (refl, tt));
}

abbrev launcher : Launcher
launcher = store_action "s" "a" collecting []

abbrev updates : Updates
updates = ("to", str "ann") ∷ ("body", str "hello") ∷ []

given_values : All (λ u. has_value u.1 ≡ true) updates
unfolding has_value
given_values = (refl, (refl, tt))

follow_updates-unfilled_example :
    (after : Action) × (get_action "s" "a" (follow_updates "s" "a" updates launcher) ≡ some after)
    × (after.status
        ≡ status_for (unfilled updates collecting.parameters collecting.missing_parameters))
follow_updates-unfilled_example =
    follow_updates-unfilled "s" "a" updates launcher collecting refl collecting-IsCollected
      given_values

abbrev item : PlanItem
item = record { id = "a"; intent = "send a mail"; tool = "send_email"; arguments = object [] }

update-process_action_plan_example :
    let after = (process_action_plan [] "s" "m" (item ∷ []) launcher).0 in
    update_parameter_value "s" "a" "to" (str "ann") after ≡ (none, after)
update-process_action_plan_example =
    update-process_action_plan [] "s" "m" (item ∷ []) launcher "a" "to" (str "ann") refl

abbrev step : (id tool status : String) → Value → Step
step id tool status args = record {
  step_id = some id;
  tool_call = record { id = id; name = tool; arguments = args; session_id = "s"; user_id = "u" };
  status = status;
  started_at = "";
  finished_at = none;
  result = none;
}

abbrev steps : List Step
steps =
    step "a" "fetch_emails" "pending" (object [])
    ∷ step "b" "send_email" "ready" (object (("body", str "{{a.subject}} {{a.sender}}") ∷ []))
    ∷ []

resolve_text-whole_example :
    resolve_text steps ("{{" ++ "a.subject}} {{a.sender" ++ "}}")
    ≡ value_or_text
        (placeholder_value steps "a.subject}} {{a.sender")
        ("{{" ++ "a.subject}} {{a.sender" ++ "}}")
unfolding ends_line
resolve_text-whole_example = resolve_text-whole steps "a.subject}} {{a.sender" refl (
  refl,
  (
    refl,
    (
      refl,
      (
        refl,
        (
          refl,
          (
            refl,
            (
              refl,
              (
                refl,
                (
                  refl,
                  (
                    refl,
                    (
                      refl,
                      (
                        refl,
                        (
                          refl,
                          (
                            refl,
                            (refl, (refl, (refl, (refl, (refl, (refl, (refl, (refl, tt)))))))),
                          ),
                        ),
                      ),
                    ),
                  ),
                ),
              ),
            ),
          ),
        ),
      ),
    ),
  ),
)

abbrev orchestrator : Orchestrator
orchestrator = record {
  World = ℕ;
  now = λ w. (w, suc w);
  execute_tool = λ call plan_id step_id w. (
    (if call.name == "send_email"
        then err "no connection"
        else ok (record {
          status = ResultStatus.success;
          tool_name = call.name;
          data_value = call.arguments;
          error = none;
          error_details = undefined;
        })),
    suc w,
  );
}

abbrev helpers : Helpers ℕ
helpers = record {
  uuid = λ w. ("id", suc w);
  iso_now = λ w. ("now", suc w);
  chat_stream = λ prompt w. (record { pieces = "done" ∷ []; broken = false }, w);
  correct_arguments = λ run i args error w. (none, w);
  generate_follow_up = λ run next w. (none, w);
  record_tool_call = λ entry w. w;
  update_history = λ id w. w;
}

abbrev setting : Setting
setting = record {
  configs = [];
  check = λ schema args. none;
  llm_fix_enabled = true;
  history_id = none;
  user_id = "u";
}

abbrev run : PlanRun
run = record {
  id = "run";
  plan_id = "plan";
  session_id = "s";
  user_id = "u";
  connection_id = none;
  user_input = "";
  context_messages = none;
  status = RunStatus.pending;
  started_at = "";
  initiated_by = "user";
  completed_at = "";
  parent_run_id = "";
  tool_execution_plan = steps;
  assistant_response = none;
}

abbrev sys : Sys ℕ
sys = record { run = run; launcher = launcher; chunks = []; world = 0 }

execute_plan_outcome_example :
    let after = execute_plan orchestrator helpers setting sys in
    ((after.run.status ≡ RunStatus.completed)
      × ((j : ℕ) → mark_at j (plan_of after) ≡ finish (mark_at j (plan_of sys))))
    ⊎ ((after.run.status ≡ RunStatus.failed)
        × ((k : ℕ) × (opens (mark_at k (plan_of sys)) ≡ true)
            × ((j : ℕ) → j < k → mark_at j (plan_of after) ≡ finish (mark_at j (plan_of sys)))
            × ((j : ℕ) → k < j → mark_at j (plan_of after) ≡ mark_at j (plan_of sys))))
execute_plan_outcome_example = execute_plan_outcome orchestrator helpers setting sys
