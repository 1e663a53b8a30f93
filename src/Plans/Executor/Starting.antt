-- ===== src/Plans/Executor/Starting.antt =====
-- The turn of a step that is pending or ready.
use app_intent_system_orches.Base.{
  ℕ, ◌≡◌, ◌≢◌, refl, sym, ap, ◌∙◌, inl, inr, String, Bool, Option, none, some, Result, ok, err,
  Bool-cases, string_eq,
}
use app_intent_system_orches.Js.{Value}
use app_intent_system_orches.Services.Runs.{Step}
use app_intent_system_orches.Cortex.Tools.{Orchestrator}
use app_intent_system_orches.Catalog.Config.{InputSchema, validate_tool_args, get_tool_input_schema}
use app_intent_system_orches.Plans.Launcher.{Action}
use app_intent_system_orches.Plans.Launcher.Parameters.{Payload, execute_action}
use app_intent_system_orches.Plans.Session.{
  Helpers, Setting, Sys, send_run, stream_message, stream_step_announcement,
}
use app_intent_system_orches.Plans.Placeholders.{resolve_placeholders}
use app_intent_system_orches.Plans.Progress.{Turn, with_arguments, with_status, id_text}
use app_intent_system_orches.Plans.Executor.{
  accept, take_correction, fix_arguments, checked, checked_arguments, change_step, after_action,
  perform, with_resolved, start_step,
}
use app_intent_system_orches.Plans.Executor.Marks.{
  plan_of, mark_at, mark_at-update_at, mark_at-update_at_ne, mark_at-update_at_some,
}
use app_intent_system_orches.Plans.Executor.Steps.{
  Turned, Turned-from, Ended, conclude_action-Turned, fail_step-Turned, answer-Ended,
}

module _ (orchestrator : Orchestrator) (helpers : Helpers orchestrator.World)
    (setting : Setting) where
  abbrev State : Type 0
  State = Sys orchestrator.World

  -- The state with the plan's marks as they are.
  abbrev pub Alike : State → State → Type 0
  Alike sys sys' = (j : ℕ) → mark_at j (plan_of sys') ≡ mark_at j (plan_of sys)

  accept-Alike :
      (i : ℕ) (args fixed : Value) (error : Option String) (sys : State)
      → Alike sys (accept orchestrator helpers setting i args fixed error sys).1
  accept-Alike i args fixed none sys j =
      mark_at-update_at i j (with_arguments fixed) sys.run.tool_execution_plan (λ s. refl)
  accept-Alike i args fixed (some error) sys j = refl

  take_correction-Alike :
      (i : ℕ) (step : Step) (args : Value) (answer : Option Value) (sys : State)
      → Alike sys (take_correction orchestrator helpers setting i step args answer sys).1
  take_correction-Alike i step args none sys j = refl
  take_correction-Alike i step args (some fixed) sys j =
      accept-Alike i args fixed
        (validate_tool_args setting.check setting.configs step.tool_call.name fixed) sys j

  fix_arguments-Alike :
      (i : ℕ) (step : Step) (args : Value) (error : String) (schema : Option InputSchema)
      (sys : State)
      → Alike sys (fix_arguments orchestrator helpers setting i step args error schema sys).1
  fix_arguments-Alike i step args error none sys j = refl
  fix_arguments-Alike i step args error (some schema) sys j =
      let (answer, w) = helpers.correct_arguments sys.run i args error sys.world in
      take_correction-Alike i step args answer (record sys { world = w }) j

  checked-Alike :
      (i : ℕ) (step : Step) (args : Value) (error : Option String) (sys : State)
      → Alike sys (checked orchestrator helpers setting i step args error sys).1
  checked-Alike i step args none sys j = refl
  checked-Alike i step args (some error) sys j = elim (Bool-cases setting.llm_fix_enabled) [
    | inl e ↦ rw e (
        fix_arguments-Alike i step args error
          (get_tool_input_schema setting.configs step.tool_call.name) sys j)
    | inr e ↦ rw e refl
  ]

  after_action-Turned :
      (i : ℕ) (step : Step) (args : Value) (answer : Result Action) (sys : State)
      → mark_at i (plan_of sys) ≢ none
      → ((action : Action) → answer ≡ ok action → Ended orchestrator helpers setting action)
      → Turned orchestrator helpers setting i
          (plan_of sys)
          (after_action orchestrator helpers setting i step args answer sys)
  after_action-Turned i step args (ok action) sys there ended =
      conclude_action-Turned orchestrator helpers setting i step args action sys there
        (ended action refl)
  after_action-Turned i step args (err message) sys there ended =
      fail_step-Turned orchestrator helpers setting i step message sys

  perform-Turned :
      (i : ℕ) (step : Step) (args : Value) (sys : State)
      → mark_at i (plan_of sys) ≢ none
      → Turned orchestrator helpers setting i
          (plan_of sys)
          (perform orchestrator helpers setting i step args sys)
  unfolding perform
  perform-Turned i step args sys there =
      let payload : Payload = record {
        action_id = step.tool_call.id;
        tool_name = step.tool_call.name;
        arguments = args;
      } in
      let id = id_text step.step_id in
      let called =
        execute_action orchestrator sys.run.session_id setting.user_id payload sys.run.plan_id id
          sys.launcher sys.world in
      after_action-Turned i step args called.0
        (record sys { launcher = called.1; world = called.2 }) there
        (answer-Ended orchestrator helpers setting sys.run.session_id setting.user_id payload
          sys.run.plan_id id sys.launcher sys.world)

  announcement-run :
      (tool : String) (args : Value) (resolved : Bool) (sys : State)
      → (stream_step_announcement helpers tool args resolved sys).run ≡ sys.run
  unfolding stream_step_announcement stream_message
  announcement-run tool args resolved sys = refl

  checked_arguments-Alike :
      (i : ℕ) (step : Step) (args : Value) (sys : State)
      → Alike sys (checked_arguments orchestrator helpers setting i step args sys).1
  unfolding checked_arguments
  checked_arguments-Alike i step args sys =
      checked-Alike i step args
        (validate_tool_args setting.check setting.configs step.tool_call.name args) sys

  -- A turn after changes that keep all marks.
  Turned-Alike :
      (i : ℕ) (before between : State) (out : Turn × State)
      → Alike before between
      → (mark_at i (plan_of between) ≢ none
          → Turned orchestrator helpers setting i (plan_of between) out)
      → mark_at i (plan_of before) ≢ none
      → Turned orchestrator helpers setting i (plan_of before) out
  Turned-Alike i before between out alike turned there =
      Turned-from orchestrator helpers setting i (plan_of before) (plan_of between) out
        (λ j ne. alike j) (turned (λ e. there (sym (alike i) ∙ e)))

  -- The arguments are put in and checked, and the step announced.
  abbrev prepared : ℕ → Step → Value → Bool → State → Value × State
  prepared i step args resolved sys = checked_arguments orchestrator helpers setting i step args (
      send_run (
        stream_step_announcement helpers step.tool_call.name args resolved
          (change_step orchestrator helpers setting i (with_arguments args) sys)))

  prepared-Alike :
      (i : ℕ) (step : Step) (args : Value) (resolved : Bool) (sys : State)
      → Alike sys (prepared i step args resolved sys).1
  prepared-Alike i step args resolved sys j =
      let put = change_step orchestrator helpers setting i (with_arguments args) sys in
      checked_arguments-Alike i step args
        (send_run (stream_step_announcement helpers step.tool_call.name args resolved put)) j
      ∙ ap (λ run. mark_at j run.tool_execution_plan)
          (announcement-run step.tool_call.name args resolved put)
      ∙ mark_at-update_at i j (with_arguments args) (plan_of sys) (λ s. refl)

  with_resolved-Turned :
      (i : ℕ) (step : Step) (resolved : Option (Value × Bool)) (sys : State)
      → mark_at i (plan_of sys) ≢ none
      → Turned orchestrator helpers setting i
          (plan_of sys)
          (with_resolved orchestrator helpers setting i step resolved sys)
  with_resolved-Turned i step none sys there =
      fail_step-Turned orchestrator helpers setting i step "\"undefined\" is not valid JSON" sys
  with_resolved-Turned i step (some (args, b)) sys there =
      let ready = prepared i step args b sys in
      Turned-Alike i sys ready.1 (perform orchestrator helpers setting i step ready.0 ready.1)
        (prepared-Alike i step args b sys) (perform-Turned i step ready.0 ready.1) there

  pub start_step-Turned :
      (i : ℕ) (step : Step) (sys : State)
      → mark_at i (plan_of sys) ≢ none
      → Turned orchestrator helpers setting i
          (plan_of sys)
          (start_step orchestrator helpers setting i step sys)
  unfolding start_step
  start_step-Turned i step sys there =
      let begun =
        send_run (change_step orchestrator helpers setting i (with_status "running") sys) in
      Turned-from orchestrator helpers setting i (plan_of sys) (plan_of begun)
        (start_step orchestrator helpers setting i step sys)
        (λ j ne. mark_at-update_at_ne i j (with_status "running") (plan_of sys) ne)
        (with_resolved-Turned i step
          (resolve_placeholders begun.run.tool_execution_plan step.tool_call.arguments) begun
          (mark_at-update_at_some i (with_status "running") (plan_of sys) there))
