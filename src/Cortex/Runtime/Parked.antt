-- ===== src/Cortex/Runtime/Parked.antt =====
-- How the loop of cortex/runtime.ts `execute` leaves a run that waits.
use app_intent_system_orches.Base.{
  ℕ, suc, ◌+◌, ◌≡◌, ◌≢◌, refl, subst, inl, inr, Option, none, some, List, [], ◌∷◌, length, ok,
  arith, Option-cases, Result-cases, string_eq, eq_refl, of_OnOk,
}
use app_intent_system_orches.Js.{Value}
use app_intent_system_orches.Cortex.Types.{Action, Run, waiting}
use app_intent_system_orches.Cortex.Redis.{Redis}
use app_intent_system_orches.Cortex.World.{Outside}
use app_intent_system_orches.Cortex.Store.Tables.{RunRow, Store}
use app_intent_system_orches.Cortex.Store.Runs.{save_run, find_row}
use app_intent_system_orches.Cortex.Store.Rows.{saved_row, find_row-save_run}
use app_intent_system_orches.Cortex.Runtime.Steps.{StepResult, execute_action}
use app_intent_system_orches.Cortex.Runtime.Execute.{
  Sys, LoopEnd, returned, completed, threw, leave, advance, settle, perform,
}
use app_intent_system_orches.Cortex.Runtime.Spec.{perform_all, perform_moves, Turn-cases}

-- The row of the run agrees with the run itself.
pub record IsStored {redis : Redis} (run : Run) (s : Store redis) : Type 0 where
  pub row : RunRow
  pub found : find_row run.id s.runs ≡ some row
  pub status : row.run.status ≡ run.status
  pub step : row.run.step ≡ run.step
  pub context : row.run.context ≡ run.context
  pub resume_at : row.run.resume_at ≡ run.resume_at

module _ {redis : Redis} where
  saved_row-IsStored :
      (run : Run) (payload : Option Value) (old : Option RunRow) (s : Store redis)
      → find_row run.id s.runs ≡ some (saved_row run payload old)
      → IsStored run s
  saved_row-IsStored run payload none s h = record {
    row = _;
    found = h;
    status = refl;
    step = refl;
    context = refl;
    resume_at = refl;
  }
  saved_row-IsStored run payload (some row) s h = record {
    row = _;
    found = h;
    status = refl;
    step = refl;
    context = refl;
    resume_at = refl;
  }

  pub save_run-IsStored :
      (run : Run) (payload : Option Value) (s t : Store redis)
      → save_run run payload s ≡ ok t
      → IsStored run t
  save_run-IsStored run payload s t e =
      saved_row-IsStored run payload (find_row run.id s.runs) t
        (rw (eq_refl run.id) at (of_OnOk _ _ (find_row-save_run run payload s run.id) e))

-- The run stands at a wait, and is stored so.
pub record IsParked {outside : Outside} {redis : Redis} (sys : Sys outside redis) : Type 0 where
  pub waits : sys.run.status ≡ waiting
  pub dated : sys.run.resume_at ≢ none
  pub stored : IsStored sys.run sys.store

module _ {outside : Outside} {redis : Redis} where
  settle-IsParked :
      (a : Action) (r : StepResult) (sys : Sys outside redis)
      → (settle a r sys).0 ≡ leave returned
      → IsParked (settle a r sys).1
  unfolding settle advance
  settle-IsParked a r sys h = elim (Option-cases r.wait_until) [
    | inl e ↦ absurd (ground arith)
    | inr (at, e) ↦
        let parked = record sys.run { status = waiting; resume_at = some at } in
        elim (Result-cases (save_run parked none sys.store)) [
          | inr (m, f) ↦ absurd (ground arith)
          | inl (s, f) ↦
              rw (e, settle)
                (rw f (record {
                  waits = refl;
                  dated = λ n. cc;
                  stored = save_run-IsStored parked none sys.store s f;
                }))
        ]
  ]

  perform-IsParked :
      (a : Action) (sys : Sys outside redis)
      → (perform a sys).0 ≡ leave returned
      → IsParked (perform a sys).1
  unfolding perform
  perform-IsParked a sys h =
      let (result, w) = execute_action outside a sys.run sys.world in
      elim (Result-cases result) [
        | inl (r, e) ↦
            rw (e, perform) (settle-IsParked a r (record sys { world = w }) (rw (e, perform) at h))
        | inr (m, e) ↦ absurd (ground arith)
      ]

  settle_not_completed :
      (a : Action) (r : StepResult) (sys : Sys outside redis) → (settle a r sys).0 ≢ leave completed
  unfolding settle advance
  settle_not_completed a r sys h = ground arith

  perform_not_completed :
      (a : Action) (sys : Sys outside redis) → (perform a sys).0 ≢ leave completed
  unfolding perform
  perform_not_completed a sys h =
      let (result, w) = execute_action outside a sys.run sys.world in
      elim (Result-cases result) [
        | inl (r, e) ↦ settle_not_completed a r (record sys { world = w }) (rw (e, perform) at h)
        | inr (m, e) ↦ ground arith
      ]

  -- What is known when the actions that are left were performed.
  abbrev pub Ends : ℕ → LoopEnd × Sys outside redis → Type 0
  Ends n (returned, sys) = IsParked sys
  Ends n (completed, sys) = sys.run.step ≡ n
  Ends n (threw m, sys) = Unit

  pub perform_all-Ends :
      (as_left : List Action) (sys : Sys outside redis)
      → Ends (sys.run.step + length as_left) (perform_all as_left sys)
  unfolding perform_all
  perform_all-Ends [] sys = omega arith
  perform_all-Ends (a ∷ as_left) sys =
      let (turn, sys') = perform a sys in
      elim (Turn-cases turn) [
        | inl e ↦
            let total : sys'.run.step + length as_left ≡ sys.run.step + suc (length as_left) =
              omega (arith, perform_moves a sys e) in
            rw (e, perform_all)
              (subst (λ n. Ends n (perform_all as_left sys')) total (perform_all-Ends as_left sys'))
        | inr (returned, e) ↦ rw (e, perform_all) (perform-IsParked a sys e)
        | inr (completed, e) ↦ absurd (perform_not_completed a sys e)
        | inr (threw m, e) ↦ rw (e, perform_all) tt
      ]
