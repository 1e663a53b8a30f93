-- ===== src/Cortex/Runtime/Outcome.antt =====
-- What is stored of a run when cortex/runtime.ts `execute` returns.
use app_intent_system_orches.Base.{
  ℕ, ◌+◌, ◌≤◌, ◌≡◌, ◌≢◌, refl, sym, subst, ◌⊎◌, inl, inr, none, some, List, length, drop,
  length-drop, get_elem?, arith, Option-cases, Result-cases, String, string_eq,
}
use app_intent_system_orches.Cortex.Types.{
  Action, Automation, Run, running, failed, success, waiting,
}
use app_intent_system_orches.Cortex.Redis.{Redis}
use app_intent_system_orches.Cortex.World.{Outside}
use app_intent_system_orches.Cortex.Store.Tables.{StepStatus}
use app_intent_system_orches.Cortex.Store.Units.{get_unit}
use app_intent_system_orches.Cortex.Store.Runs.{save_run, log_run_step}
use app_intent_system_orches.Cortex.Runtime.Execute.{
  Sys, LoopEnd, returned, completed, threw, Executed, save_last, fail, conclude, execute,
}
use app_intent_system_orches.Cortex.Runtime.Spec.{perform_all, execute_plainly, execute_plainly_of}
use app_intent_system_orches.Cortex.Runtime.Parked.{
  IsStored, save_run-IsStored, Ends, perform_all-Ends,
}

-- How a run may stand when `execute` returned: it waits for a time, it succeeded behind its last
-- action, or it failed with an error.
abbrev pub Finished : List Action → Run → Type 0
Finished actions run =
    ((run.status ≡ waiting) × (run.resume_at ≢ none))
    ⊎ ((run.status ≡ success) × (length actions ≤ run.step))
    ⊎ ((run.status ≡ failed) × (run.error ≢ none))

module _ {outside : Outside} {redis : Redis} where
  -- Unless it threw, the run stands in one of these ways, and is stored so.
  abbrev pub Settles : List Action → Executed outside redis → Type 0
  Settles actions x =
      (x.thrown ≢ none) ⊎ (Finished actions x.sys.run × IsStored x.sys.run x.sys.store)

  -- The last save either throws, or leaves the run stored as it is.
  save_last_cases :
      (sys : Sys outside redis)
      → ((save_last sys).thrown ≢ none)
        ⊎ (((save_last sys).sys.run ≡ sys.run) × IsStored sys.run (save_last sys).sys.store)
  unfolding save_last
  save_last_cases sys = elim (Result-cases (save_run sys.run none sys.store)) [
    | inr (m, e) ↦ inl (λ h. ground arith)
    | inl (s, e) ↦
        inr
          (rw (e, save_last) refl, rw (e, save_last) (save_run-IsStored sys.run none sys.store s e))
  ]

  save_last-Settles :
      (actions : List Action) (sys : Sys outside redis)
      → Finished actions sys.run
      → Settles actions (save_last sys)
  save_last-Settles actions sys h = elim (save_last_cases sys) [
    | inl thrown ↦ inl thrown
    | inr (same, stored) ↦
        inr (rw same h, subst (λ r. IsStored r (save_last sys).sys.store) (sym same) stored)
  ]

  fail-Settles :
      (actions : List Action) (m : String) (sys : Sys outside redis)
      → Settles actions (fail actions m sys)
  unfolding fail
  fail-Settles actions m sys =
      let (time, w) = outside.now sys.world in
      let broken = record sys.run { status = failed; error = some m; completed_at = some time } in
      elim (Option-cases (get_elem? actions sys.run.step)) [
        | inl e ↦ rw (e, fail) (inl (λ h. cc))
        | inr (a, e) ↦
            elim (Result-cases
              (log_run_step sys.run.id sys.run.step a StepStatus.failed none (some m) sys.store)) [
                | inr (n, f) ↦ rw (e, fail) (rw f (inl (λ h. cc)))
                | inl (s, f) ↦
                    rw (e, fail)
                      (rw f (
                        save_last-Settles actions (record { run = broken; store = s; world = w })
                          (inr (inr (refl, (λ h. cc))))))
              ]
      ]

  conclude-Settles :
      (actions : List Action) (n : ℕ) (how : LoopEnd) (sys : Sys outside redis)
      → length actions ≤ n
      → Ends n (how, sys)
      → Settles actions (conclude actions how sys)
  unfolding conclude
  conclude-Settles actions n returned sys all h = inr (inl (h.waits, h.dated), h.stored)
  conclude-Settles actions n completed sys all h =
      let (time, w) = outside.now sys.world in
      save_last-Settles actions
        (record {
          run = record sys.run { status = success; completed_at = some time };
          store = sys.store;
          world = w;
        })
        (inr (inl (refl, omega arith)))
  conclude-Settles actions n (threw m) sys all h = fail-Settles actions m sys

  execute_plainly-Settles :
      (sys : Sys outside redis) (unit : Automation)
      → get_unit sys.run.unit_id sys.store ≡ some unit
      → Settles unit.actions (execute_plainly sys)
  unfolding execute_plainly
  execute_plainly-Settles sys unit e =
      let started = record sys.run { status = running } in
      elim (Result-cases (save_run started none sys.store)) [
        | inr (m, f) ↦ rw (e, execute_plainly) (rw f (inl (λ h. cc)))
        | inl (s, f) ↦
            let begun : Sys outside redis = record {
              run = started;
              store = s;
              world = sys.world;
            } in
            let left = drop sys.run.step unit.actions in
            let (how, sys') = perform_all left begun in
            rw (e, execute_plainly)
              (rw f (
                conclude-Settles unit.actions (sys.run.step + length left) how sys'
                  (omega (arith, length-drop sys.run.step unit.actions))
                  (perform_all-Ends left begun)))
      ]

-- When `execute` returns without an error for a run whose unit exists, the run waits for a time, has
-- succeeded with its step behind the last action, or has failed with an error, never in between; and
-- the table of runs holds that status, step, context and time of resumption for it.
pub execute-Finished :
    {outside : Outside} {redis : Redis} (sys : Sys outside redis) (unit : Automation)
    {x : Executed outside redis}
    → get_unit sys.run.unit_id sys.store ≡ some unit
    → execute sys ≡ some x
    → x.thrown ≡ none
    → Finished unit.actions x.sys.run × IsStored x.sys.run x.sys.store
execute-Finished sys unit {x} e ran quiet =
    let same = execute_plainly_of sys ran in
    elim (subst (Settles unit.actions) same (execute_plainly-Settles sys unit e)) [
      | inl thrown ↦ absurd (thrown quiet)
      | inr h ↦ h
    ]
