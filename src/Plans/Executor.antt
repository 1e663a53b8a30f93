-- ===== src/Plans/Executor.antt =====
-- services/PlanExecutorService.ts: executePlan. The run is one object that is changed in place; what
-- the client is sent is a copy of it at that time. Pauses between the pieces of a message are left
-- out.
pub mod Marks
mod Steps
mod Starting
mod Turns
mod Loops
pub mod Outcome
use app_intent_system_orches.Base.{
  ℕ, zero, suc, ◌+◌, String, Bool, true, false, ◌||◌, Option, none, some, List, [], ◌∷◌, ◌++◌,
  length, get_elem?, ◌==◌, string_eq, is_empty, is_some, concat, Result, ok, err, if◌then◌else◌,
}
use app_intent_system_orches.Js.{Value, undefined, null, object, str, truthy, ◌or_else◌}
use app_intent_system_orches.Services.Runs.{
  PlanRun, Step, ToolCall, ToolResult, ResultStatus, RunStatus, update_at,
}
use app_intent_system_orches.Cortex.Tools.{Orchestrator}
use app_intent_system_orches.Catalog.Config.{
  validate_tool_args, get_tool_input_schema, text_or, InputSchema,
}
use app_intent_system_orches.Plans.Launcher.{Action, Status}
use app_intent_system_orches.Plans.Launcher.Parameters.{Payload, execute_action}
use app_intent_system_orches.Plans.Placeholders.{resolve_placeholders}
use app_intent_system_orches.Plans.Session.{
  Chunk, failure, stream_start, streaming, stream_end, ToolCallEntry, FollowUp, Helpers, Setting,
  Sys, send, send_run, stream_step_announcement, stream_step_completion,
}
use app_intent_system_orches.Plans.Progress.{
  Turn, goes_on, stops, is_open, with_status, with_arguments, status_text, is_completed, is_failed,
  step_result, settled, id_text, error_text, error_value, data_or_empty,
}

module _ (orchestrator : Orchestrator) (helpers : Helpers orchestrator.World)
    (setting : Setting) where
  abbrev State : Type 0
  State = Sys orchestrator.World

  abbrev pub change_step : ℕ → (Step → Step) → State → State
  change_step i f sys = record sys {
    run = record sys.run { tool_execution_plan = update_at i f sys.run.tool_execution_plan };
  }

  abbrev pub set_run_status : RunStatus → State → State
  set_run_status status sys = record sys { run = record sys.run { status = status } }

  -- The handler of an exception of the step.
  unfoldable pub fail_step : Step → (message : String) → State → Turn × State
  fail_step step message sys =
      let sys₁ =
        (stream_step_completion helpers step.tool_call.name (object (("error", str message) ∷ []))
          sys).1 in
      let sys₂ =
        send (failure (concat ("Execution failed: " ∷ message ∷ [])) step.tool_call.id) sys₁ in
      (stops, send_run (set_run_status RunStatus.failed sys₂))

  -- The corrected arguments, if they are valid this time.
  abbrev pub accept : ℕ → (args fixed : Value) → (error : Option String) → State → Value × State
  accept i args fixed none sys = (fixed, change_step i (with_arguments fixed) sys)
  accept i args fixed (some error) sys = (args, sys)

  abbrev pub take_correction : ℕ → Step → Value → Option Value → State → Value × State
  take_correction i step args none sys = (args, sys)
  take_correction i step args (some fixed) sys =
      accept i args fixed
        (validate_tool_args setting.check setting.configs step.tool_call.name fixed) sys

  -- _fixArgumentsWithLlm, which throws for a tool without a schema
  abbrev pub fix_arguments :
      ℕ → Step → Value → (error : String) → Option InputSchema → State → Value × State
  fix_arguments i step args error none sys = (args, sys)
  fix_arguments i step args error (some schema) sys =
      let (answer, w) = helpers.correct_arguments sys.run i args error sys.world in
      take_correction i step args answer (record sys { world = w })

  abbrev pub checked : ℕ → Step → Value → (error : Option String) → State → Value × State
  checked i step args none sys = (args, sys)
  checked i step args (some error) sys =
      if setting.llm_fix_enabled
      then fix_arguments i step args error
          (get_tool_input_schema setting.configs step.tool_call.name) sys
      else (args, sys)

  -- The arguments after their validation, which the language model may correct.
  unfoldable pub checked_arguments : ℕ → Step → Value → State → Value × State
  unfolding validate_tool_args get_tool_input_schema
  checked_arguments i step args sys =
      checked i step args
        (validate_tool_args setting.check setting.configs step.tool_call.name args) sys

  -- historyService.recordToolCall
  abbrev note : Step → Value → (summary : String) → Value → Bool → State → State
  note step args summary result succeeded sys = record sys {
    world =
        helpers.record_tool_call
          (record {
            tool_name = step.tool_call.name;
            summary = summary;
            arguments = args;
            result = result;
            succeeded = succeeded;
            step_id = step.step_id;
          })
          sys.world;
  }

  abbrev pub note_failure : Step → Value → Action → State → State
  note_failure step args action sys =
      note step args (concat ("Failed: " ∷ text_or action.error "Unknown error" ∷ [])) null false
        sys

  abbrev pub note_success : Step → Value → Action → State → State
  note_success step args action sys =
      note step args (concat ("Executed " ∷ step.tool_call.name ∷ [])) action.result true sys

  -- After a tool that failed.
  unfoldable pub report_failure : Step → Value → Action → State → Turn × State
  report_failure step args action sys =
      let name = step.tool_call.name in
      let sys₁ = note_failure step args action (set_run_status RunStatus.failed sys) in
      let sys₂ =
        (stream_step_completion helpers name (object (("error", error_value action.error) ∷ []))
          sys₁).1 in
      let sys₃ =
        send
          (failure (concat ("Action '" ∷ name ∷ "' failed: " ∷ error_text action.error ∷ []))
            step.tool_call.id)
          sys₂ in
      (stops, send_run sys₃)

  -- The message of success may throw.
  abbrev pub after_completion : Step → Option String × State → Turn × State
  after_completion step (none, sys) = (goes_on, sys)
  after_completion step (some message, sys) = fail_step step message sys

  -- After a tool that succeeded.
  unfoldable pub report_success : Step → Value → Action → State → Turn × State
  report_success step args action sys = after_completion step (
      stream_step_completion helpers step.tool_call.name action.result
        (note_success step args action sys))

  -- The step takes over the outcome of its action.
  abbrev pub take_over : ℕ → Action → State → State
  take_over i action sys =
      let (now, w) = helpers.iso_now sys.world in
      let sys' : State = record sys { world = w } in
      send_run (change_step i (settled now action) sys')

  unfoldable pub conclude_action : ℕ → Step → Value → Action → State → Turn × State
  conclude_action i step args action sys =
      if is_failed action.status
      then report_failure step args action (take_over i action sys)
      else report_success step args action (take_over i action sys)

  abbrev pub after_action : ℕ → Step → Value → Result Action → State → Turn × State
  after_action i step args (ok action) sys = conclude_action i step args action sys
  after_action i step args (err message) sys = fail_step step message sys

  -- The call of the tool with the arguments as they stand, and what is made of its answer.
  unfoldable pub perform : ℕ → Step → Value → State → Turn × State
  unfolding execute_action
  perform i step args sys =
      let (answer, launcher, w) =
        execute_action orchestrator sys.run.session_id setting.user_id
          (record {
            action_id = step.tool_call.id;
            tool_name = step.tool_call.name;
            arguments = args;
          })
          sys.run.plan_id (id_text step.step_id) sys.launcher sys.world in
      after_action i step args answer (record sys { launcher = launcher; world = w })

  -- The step is announced, its arguments are checked, and its tool is called.
  abbrev pub with_resolved : ℕ → Step → Option (Value × Bool) → State → Turn × State
  with_resolved i step none sys = fail_step step "\"undefined\" is not valid JSON" sys
  with_resolved i step (some (args, resolved)) sys =
      let sys₁ = change_step i (with_arguments args) sys in
      let sys₂ =
        send_run (stream_step_announcement helpers step.tool_call.name args resolved sys₁) in
      let (final, sys₃) = checked_arguments i step args sys₂ in perform i step final sys₃

  -- A step that is pending or ready.
  unfoldable pub start_step : ℕ → Step → State → Turn × State
  unfolding resolve_placeholders
  start_step i step sys =
      let sys' = send_run (change_step i (with_status "running") sys) in
      with_resolved i step
        (resolve_placeholders sys'.run.tool_execution_plan step.tool_call.arguments) sys'

  abbrev summary_chunks : Option String → Option String → List Chunk
  summary_chunks step_id none = []
  summary_chunks step_id (some summary) =
      let id = concat (id_text step_id ∷ "_followup" ∷ []) in
      if is_empty summary then [] else stream_start id ∷ streaming summary id ∷ stream_end id ∷ []

  abbrev pub take_follow_up : ℕ → Step → Option FollowUp → State → State
  take_follow_up i step none sys = sys
  take_follow_up i step (some f) sys =
      let sys' : State = record sys {
        chunks = sys.chunks ++ summary_chunks step.step_id f.summary;
      } in
      if truthy f.next_arguments
      then send_run (change_step (suc i) (with_arguments f.next_arguments) sys')
      else sys'

  -- The follow-up after a completed step, which prepares the next one.
  unfoldable pub follow_up : ℕ → Step → Option Step → State → State
  follow_up i step none sys = sys
  follow_up i step (some next) sys =
      let (answer, w) = helpers.generate_follow_up sys.run next sys.world in
      take_follow_up i step answer (record sys { world = w })

  -- The first part of the loop's body.
  unfoldable pub process_step : ℕ → Step → State → Turn × State
  process_step i step sys =
      if step.status == "completed"
      then (
        goes_on,
        (stream_step_completion helpers step.tool_call.name (data_or_empty step.result) sys).1,
      )
      else if is_open step.status
      then start_step i step sys
      else (goes_on, sys)

  abbrev pub follow_completed : ℕ → Option Step → State → State
  follow_completed i none sys = sys
  follow_completed i (some step) sys =
      if step.status == "completed"
      then follow_up i step (get_elem? sys.run.tool_execution_plan (suc i)) sys
      else sys

  abbrev pub go_on : Turn × State → (State → Turn × State) → Turn × State
  go_on (stops, sys) rest = (stops, sys)
  go_on (goes_on, sys) rest = rest sys

  -- The loop, from the index on with as many steps left.
  unfoldable pub loop : ℕ → ℕ → State → Turn × State
  unfolding process_step follow_up
  loop zero i sys = (goes_on, sys)
  loop (suc left) i sys = elim (get_elem? sys.run.tool_execution_plan i) [
    | none ↦ (goes_on, sys)
    | some step ↦ go_on (process_step i step sys) (λ sys'.
        loop left (suc i) (follow_completed i (get_elem? sys'.run.tool_execution_plan i) sys'))
  ]

  -- After the last step.
  unfoldable pub complete : State → State
  complete sys =
      let (now, w) = helpers.iso_now sys.world in
      let sys₁ : State = record sys {
        run = record sys.run { status = RunStatus.completed; completed_at = now };
        world = elim setting.history_id [ none ↦ w | some id ↦ helpers.update_history id w ];
      } in
      send_run sys₁

  abbrev pub begin_run : State → State
  begin_run sys = send (Chunk.run_updated (record sys.run { status = RunStatus.running })) sys

  abbrev pub end_run : Turn × State → State
  end_run (stops, sys) = sys
  end_run (goes_on, sys) = complete sys

  unfoldable pub execute_plan : State → State
  unfolding loop complete
  execute_plan sys = end_run (loop (length sys.run.tool_execution_plan) 0 (begin_run sys))
