-- ===== src/Plans/Executor/Steps.antt =====
-- What the turn of one step does to the run.
use app_intent_system_orches.Base.{
  ℕ, ◌≡◌, ◌≢◌, refl, sym, subst, ap, ◌∙◌, inl, inr, ◌⊎◌, String, Bool, true, false, Option, none,
  some, List, [], ◌∷◌, Result, ok, err, arith, Option-cases, if◌then◌else◌, string_eq,
}
use app_intent_system_orches.Js.{Value, stringify, object, str}
use app_intent_system_orches.Services.Runs.{PlanRun, Step, ToolResult, ResultStatus, RunStatus}
use app_intent_system_orches.Cortex.Tools.{Orchestrator}
use app_intent_system_orches.Plans.Launcher.{Action, Launcher, Status, get_action}
use app_intent_system_orches.Plans.Launcher.Parameters.{
  Payload, execute_action, outcome_status, take_answer, executing, call_tool,
}
use app_intent_system_orches.Plans.Session.{
  Helpers, Setting, Sys, stream_message, stream_step_completion,
}
use app_intent_system_orches.Plans.Progress.{Turn, goes_on, stops, error_value, settled, is_failed}
use app_intent_system_orches.Plans.Executor.{
  fail_step, conclude_action, report_failure, report_success, note_failure, note_success,
  set_run_status, after_completion, take_over,
}
use app_intent_system_orches.Plans.Executor.Marks.{
  plan_of, mark, mark_at, done, mark_at-update_at_ne, mark_at-update_at_self,
}

module _ (orchestrator : Orchestrator) (helpers : Helpers orchestrator.World)
    (setting : Setting) where
  abbrev State : Type 0
  State = Sys orchestrator.World

  abbrev failed_run : PlanRun → PlanRun
  failed_run run = record run { status = RunStatus.failed }

  pub completion-run :
      (tool : String) (result : Value) (sys : State)
      → (stream_step_completion helpers tool result sys).1.run ≡ sys.run
  unfolding stream_step_completion stream_message
  completion-run tool result sys = elim (Option-cases (stringify result)) [
    | inl e ↦ rw (e, stream_step_completion) refl
    | inr (json, e) ↦ rw (e, stream_step_completion) refl
  ]

  fail_step-run :
      (step : Step) (message : String) (sys : State)
      → (fail_step orchestrator helpers setting step message sys).1.run ≡ failed_run sys.run
  unfolding fail_step
  fail_step-run step message sys =
      ap failed_run (completion-run step.tool_call.name (object (("error", str message) ∷ [])) sys)

  report_failure-run :
      (step : Step) (args : Value) (action : Action) (sys : State)
      → (report_failure orchestrator helpers setting step args action sys).1.run
        ≡ failed_run sys.run
  unfolding report_failure
  report_failure-run step args action sys =
      completion-run step.tool_call.name (object (("error", error_value action.error) ∷ [])) (
        note_failure orchestrator helpers setting step args action
          (set_run_status orchestrator helpers setting RunStatus.failed sys))

  -- A turn that goes on leaves the run as it is, one that stops has failed it.
  abbrev Reported : PlanRun → Turn × State → Type 0
  Reported run out =
      ((out.0 ≡ goes_on) × (out.1.run ≡ run)) ⊎ ((out.0 ≡ stops) × (out.1.run ≡ failed_run run))

  fail_step-stops :
      (step : Step) (message : String) (sys : State)
      → (fail_step orchestrator helpers setting step message sys).0 ≡ stops
  unfolding fail_step
  fail_step-stops step message sys = refl

  after_completion-Reported :
      (step : Step) (thrown : Option String) (sys : State)
      → Reported sys.run (after_completion orchestrator helpers setting step (thrown, sys))
  after_completion-Reported step none sys = inl (refl, refl)
  after_completion-Reported step (some message) sys =
      inr (fail_step-stops step message sys, fail_step-run step message sys)

  report_success-Reported :
      (step : Step) (args : Value) (action : Action) (sys : State)
      → Reported sys.run (report_success orchestrator helpers setting step args action sys)
  unfolding report_success
  report_success-Reported step args action sys =
      let noted = note_success orchestrator helpers setting step args action sys in
      let out = stream_step_completion helpers step.tool_call.name action.result noted in
      subst (λ run. Reported run (after_completion orchestrator helpers setting step out))
        (completion-run step.tool_call.name action.result noted)
        (after_completion-Reported step out.0 out.1)

  -- The turn of the step at the position: no other step changes its mark; the step is done, or the
  -- run has failed.
  abbrev pub Turned : ℕ → List Step → Turn × State → Type 0
  Turned i plan out =
      ((j : ℕ) → i ≢ j → mark_at j (plan_of out.1) ≡ mark_at j plan)
      × (((out.0 ≡ goes_on) × (mark_at i (plan_of out.1) ≡ some done))
          ⊎ ((out.0 ≡ stops) × (out.1.run.status ≡ RunStatus.failed)))

  pub fail_step-Turned :
      (i : ℕ) (step : Step) (message : String) (sys : State)
      → Turned i (plan_of sys) (fail_step orchestrator helpers setting step message sys)
  fail_step-Turned i step message sys = (
    (λ j ne. ap (λ run. mark_at j run.tool_execution_plan) (fail_step-run step message sys)),
    inr (fail_step-stops step message sys, ap (λ run. run.status) (fail_step-run step message sys)),
  )

  report_failure-Turned :
      (i : ℕ) (step : Step) (args : Value) (action : Action) (sys : State)
      → Turned i (plan_of sys) (report_failure orchestrator helpers setting step args action sys)
  unfolding report_failure
  report_failure-Turned i step args action sys = (
    (λ j ne.
        ap (λ run. mark_at j run.tool_execution_plan) (report_failure-run step args action sys)),
    inr (refl, ap (λ run. run.status) (report_failure-run step args action sys)),
  )

  report_success-Turned :
      (i : ℕ) (step : Step) (args : Value) (action : Action) (sys : State)
      → mark_at i (plan_of sys) ≡ some done
      → Turned i (plan_of sys) (report_success orchestrator helpers setting step args action sys)
  report_success-Turned i step args action sys at =
      elim (report_success-Reported step args action sys) [
        | inl (on, same) ↦ (
          (λ j ne. ap (λ run. mark_at j run.tool_execution_plan) same),
          inl (on, ap (λ run. mark_at i run.tool_execution_plan) same ∙ at),
        )
        | inr (off, failed) ↦ (
          (λ j ne. ap (λ run. mark_at j run.tool_execution_plan) failed),
          inr (off, ap (λ run. run.status) failed),
        )
      ]

  -- A turn may start from any plan with the same marks elsewhere.
  pub Turned-from :
      (i : ℕ) (p q : List Step) (out : Turn × State)
      → ((j : ℕ) → i ≢ j → mark_at j q ≡ mark_at j p)
      → Turned i q out
      → Turned i p out
  Turned-from i p q out same h = ((λ j ne. h.0 j ne ∙ same j ne), h.1)

  settled-done :
      (now : String) (action : Action) (step : Step)
      → action.status ≡ Status.completed
      → mark (settled now action step) ≡ done
  settled-done now action step e = rw e refl

  conclude_action_cases :
      (i : ℕ) (step : Step) (args : Value) (action : Action) (sys : State) (b : Bool)
      → is_failed action.status ≡ b
      → conclude_action orchestrator helpers setting i step args action sys ≡ (
          if b
          then report_failure orchestrator helpers setting step args action
              (take_over orchestrator helpers setting i action sys)
          else report_success orchestrator helpers setting step args action
              (take_over orchestrator helpers setting i action sys))
  unfolding conclude_action
  conclude_action_cases i step args action sys b e =
      ap
        (λ (c : Bool).
          if c
          then report_failure orchestrator helpers setting step args action
              (take_over orchestrator helpers setting i action sys)
          else report_success orchestrator helpers setting step args action
              (take_over orchestrator helpers setting i action sys))
        e

  -- The statuses with which an action can end.
  abbrev pub Ended : Action → Type 0
  Ended action = (action.status ≡ Status.completed) ⊎ (action.status ≡ Status.failed)

  taken_over-Turned :
      (i : ℕ) (step : Step) (args : Value) (action : Action) (sys : State)
      → mark_at i (plan_of sys) ≢ none
      → Ended action
      → Turned i
          (plan_of (take_over orchestrator helpers setting i action sys))
          (conclude_action orchestrator helpers setting i step args action sys)
  taken_over-Turned i step args action sys there how =
      let taken = take_over orchestrator helpers setting i action sys in
      let now = (helpers.iso_now sys.world).0 in
      elim how [
        | inl e ↦
            subst (Turned i (plan_of taken))
              (sym (conclude_action_cases i step args action sys false (ap is_failed e)))
              (report_success-Turned i step args action taken (
                mark_at-update_at_self i (settled now action) (plan_of sys) done there
                  (λ s. settled-done now action s e)))
        | inr e ↦
            subst (Turned i (plan_of taken))
              (sym (conclude_action_cases i step args action sys true (ap is_failed e)))
              (report_failure-Turned i step args action taken)
      ]

  pub conclude_action-Turned :
      (i : ℕ) (step : Step) (args : Value) (action : Action) (sys : State)
      → mark_at i (plan_of sys) ≢ none
      → Ended action
      → Turned i (plan_of sys) (conclude_action orchestrator helpers setting i step args action sys)
  conclude_action-Turned i step args action sys there how =
      let taken = take_over orchestrator helpers setting i action sys in
      let now = (helpers.iso_now sys.world).0 in
      Turned-from i (plan_of sys) (plan_of taken)
        (conclude_action orchestrator helpers setting i step args action sys)
        (λ j ne. mark_at-update_at_ne i j (settled now action) (plan_of sys) ne)
        (taken_over-Turned i step args action sys there how)

  outcome-Ended :
      (status : ResultStatus) (action : Action)
      → action.status ≡ outcome_status status
      → Ended action
  outcome-Ended ResultStatus.success action e = inl e
  outcome-Ended ResultStatus.failed action e = inr e

  take_answer-Ended :
      (s id : String) (action : Action) (launcher : Launcher) (answer : Result ToolResult)
      (after : Action)
      → (take_answer s id action launcher answer).0 ≡ ok after
      → Ended after
  take_answer-Ended s id action launcher (ok result) after h =
      outcome-Ended result.status after (ground arith)
  take_answer-Ended s id action launcher (err message) after h = absurd (ground arith)

  execute_action_found :
      (s u : String) (payload : Payload) (p t : String) (launcher : Launcher)
      (w : orchestrator.World) (stored : Action)
      → get_action s payload.action_id launcher ≡ some stored
      → (execute_action orchestrator s u payload p t launcher w).0
        ≡ (take_answer s payload.action_id
            (executing payload.arguments stored)
            launcher
            (call_tool orchestrator s u payload p t (executing payload.arguments stored) w).0).0
  unfolding execute_action
  execute_action_found s u payload p t launcher w stored e = rw (execute_action, e) refl

  pub answer-Ended :
      (s u : String) (payload : Payload) (p t : String) (launcher : Launcher)
      (w : orchestrator.World) (action : Action)
      → (execute_action orchestrator s u payload p t launcher w).0 ≡ ok action
      → Ended action
  unfolding execute_action
  answer-Ended s u payload p t launcher w action h =
      elim (Option-cases (get_action s payload.action_id launcher)) [
        | inl e ↦ absurd (ground arith)
        | inr (stored, e) ↦
            take_answer-Ended s payload.action_id (executing payload.arguments stored) launcher
              (call_tool orchestrator s u payload p t (executing payload.arguments stored) w).0
              action (sym (execute_action_found s u payload p t launcher w stored e) ∙ h)
      ]
