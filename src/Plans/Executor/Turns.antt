-- ===== src/Plans/Executor/Turns.antt =====
-- The turn of one step as a whole, and the follow-up after it.
use app_intent_system_orches.Base.{
  ℕ, suc, ◌≡◌, ◌≢◌, refl, sym, ap, ◌∙◌, inl, inr, ◌⊎◌, String, true, false, Option, none, some,
  List, get_elem?, Bool-cases, ◌==◌, string_eq, eq_iff, subst,
}
use app_intent_system_orches.Js.{truthy}
use app_intent_system_orches.Services.Runs.{Step, RunStatus}
use app_intent_system_orches.Cortex.Tools.{Orchestrator}
use app_intent_system_orches.Plans.Session.{Helpers, Setting, Sys, FollowUp, stream_step_completion}
use app_intent_system_orches.Plans.Progress.{
  Turn, goes_on, stops, with_arguments, is_open, data_or_empty,
}
use app_intent_system_orches.Plans.Executor.{
  start_step, take_follow_up, follow_up, follow_completed, process_step,
}
use app_intent_system_orches.Plans.Executor.Marks.{
  plan_of, mark, mark_at, mark_of, finish, opens, finish_open, finish_closed, mark_at-update_at,
}
use app_intent_system_orches.Plans.Executor.Steps.{Turned, completion-run}
use app_intent_system_orches.Plans.Executor.Starting.{Alike, start_step-Turned}

module _ (orchestrator : Orchestrator) (helpers : Helpers orchestrator.World)
    (setting : Setting) where
  abbrev State : Type 0
  State = Sys orchestrator.World

  take_follow_up-Alike :
      (i : ℕ) (step : Step) (answer : Option FollowUp) (sys : State)
      → Alike orchestrator helpers setting sys
          (take_follow_up orchestrator helpers setting i step answer sys)
  take_follow_up-Alike i step none sys j = refl
  take_follow_up-Alike i step (some f) sys j = elim (Bool-cases (truthy f.next_arguments)) [
    | inl e ↦
        rw e
          (mark_at-update_at (suc i) j (with_arguments f.next_arguments) (plan_of sys) (λ s. refl))
    | inr e ↦ rw e refl
  ]

  follow_up-Alike :
      (i : ℕ) (step : Step) (next : Option Step) (sys : State)
      → Alike orchestrator helpers setting sys
          (follow_up orchestrator helpers setting i step next sys)
  unfolding follow_up
  follow_up-Alike i step none sys j = refl
  follow_up-Alike i step (some next) sys j =
      let (answer, w) = helpers.generate_follow_up sys.run next sys.world in
      take_follow_up-Alike i step answer (record sys { world = w }) j

  pub follow_completed-Alike :
      (i : ℕ) (step : Option Step) (sys : State)
      → Alike orchestrator helpers setting sys
          (follow_completed orchestrator helpers setting i step sys)
  follow_completed-Alike i none sys j = refl
  follow_completed-Alike i (some step) sys j = elim (Bool-cases (step.status == "completed")) [
    | inl e ↦ rw e (follow_up-Alike i step (get_elem? (plan_of sys) (suc i)) sys j)
    | inr e ↦ rw e refl
  ]

  -- The turn of the step at the position, whatever its status: no other step changes its mark; the
  -- step is finished and the loop goes on, or it was open and the run has failed.
  abbrev pub Went : ℕ → List Step → Turn × State → Type 0
  Went i plan out =
      ((j : ℕ) → i ≢ j → mark_at j (plan_of out.1) ≡ mark_at j plan)
      × (((out.0 ≡ goes_on) × (mark_at i (plan_of out.1) ≡ finish (mark_at i plan)))
          ⊎ ((out.0 ≡ stops)
              × (out.1.run.status ≡ RunStatus.failed)
              × (opens (mark_at i plan) ≡ true)))

  Went-open :
      (i : ℕ) (plan : List Step) (out : Turn × State)
      → opens (mark_at i plan) ≡ true
      → Turned orchestrator helpers setting i plan out
      → Went i plan out
  Went-open i plan out open_here turned = (
    turned.0,
    elim turned.1 [
      | inl (on, at) ↦ inl (on, at ∙ sym (finish_open (mark_at i plan) open_here))
      | inr (off, failed) ↦ inr (off, failed, open_here)
    ],
  )

  Went-closed :
      (i : ℕ) (sys sys' : State)
      → sys'.run ≡ sys.run
      → opens (mark_at i (plan_of sys)) ≡ false
      → Went i (plan_of sys) (goes_on, sys')
  Went-closed i sys sys' same closed = (
    (λ j ne. ap (λ run. mark_at j run.tool_execution_plan) same),
    inl (
      refl,
      ap (λ run. mark_at i run.tool_execution_plan) same
          ∙ sym (finish_closed (mark_at i (plan_of sys)) closed),
    ),
  )

  closed_completed : (status : String) → (status == "completed") ≡ true → is_open status ≡ false
  closed_completed status h =
      subst (λ s. is_open s ≡ false) (sym ((eq_iff status "completed").0 h)) refl

  pub process_step-Went :
      (i : ℕ) (step : Step) (sys : State)
      → get_elem? (plan_of sys) i ≡ some step
      → Went i (plan_of sys) (process_step orchestrator helpers setting i step sys)
  unfolding process_step
  process_step-Went i step sys here =
      let at : mark_at i (plan_of sys) ≡ some (mark step) = ap mark_of here in
      elim (Bool-cases (step.status == "completed")) [
        | inl e ↦
            rw (process_step, e)
              (Went-closed i sys
                (stream_step_completion helpers step.tool_call.name (data_or_empty step.result)
                  sys).1
                (completion-run orchestrator helpers setting step.tool_call.name
                  (data_or_empty step.result) sys)
                (ap opens at ∙ closed_completed step.status e))
        | inr e ↦ elim (Bool-cases (is_open step.status)) [
          | inl open_here ↦
              rw (process_step, e, open_here)
                (Went-open i (plan_of sys) (start_step orchestrator helpers setting i step sys)
                  (ap opens at ∙ open_here)
                  (start_step-Turned orchestrator helpers setting i step sys
                    (λ none_there. absurd (cc))))
          | inr closed ↦
              rw (process_step, e, closed) (Went-closed i sys sys refl (ap opens at ∙ closed))
        ]
      ]
