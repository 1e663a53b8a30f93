-- ===== src/Cortex/Runtime/Writes.antt =====
-- What an execution of cortex/runtime.ts writes to the store.
use app_intent_system_orches.Base.{
  ℕ, ◌+◌, ◌≡◌, refl, sym, subst, inl, inr, String, Option, none, some, List, [], ◌∷◌, get_elem?,
  drop, ok, Option-cases, Result-cases,
}
use app_intent_system_orches.Js.{Value}
use app_intent_system_orches.Cortex.Types.{Action, Run, running, failed, waiting}
use app_intent_system_orches.Cortex.Redis.{Redis}
use app_intent_system_orches.Cortex.World.{Outside}
use app_intent_system_orches.Cortex.Store.Tables.{Store, StepStatus}
use app_intent_system_orches.Cortex.Store.Units.{get_unit}
use app_intent_system_orches.Cortex.Store.Runs.{save_run, log_run_step}
use app_intent_system_orches.Cortex.Runtime.Steps.{StepResult, execute_action}
use app_intent_system_orches.Cortex.Runtime.Execute.{
  Sys, LoopEnd, returned, completed, threw, store_value, advance, settle, perform, Executed,
  save_last, fail, conclude, execute,
}
use app_intent_system_orches.Cortex.Runtime.Spec.{
  perform_all, execute_plainly, execute_plainly_of, Turn-cases,
}

module _ {redis : Redis} (id : String) where
  -- A write of the execution of the run with this id.
  pub data Write : Store redis → Store redis → Type 0 where
    saves_run :
        {s t : Store redis} (run : Run) → run.id ≡ id → save_run run none s ≡ ok t → Write s t
    logs_step :
        {s t : Store redis} (i : ℕ) (a : Action) (st : StepStatus) (result : Option Value)
        (error : Option String)
        → log_run_step id i a st result error s ≡ ok t
        → Write s t

  pub data Writes (s : Store redis) : Store redis → Type 0 where
    here : Writes s s
    next : {t u : Store redis} → Writes s t → Write t u → Writes s u

module _ {outside : Outside} {redis : Redis} (id : String) (s : Store redis) where
  -- The run keeps its id, and the store was reached by writes of its execution.
  pub record IsTraced (sys : Sys outside redis) : Type 0 where
    pub same : sys.run.id ≡ id
    pub writes : Writes id s sys.store

  save_again :
      (sys : Sys outside redis) (run : Run) (t : Store redis)
      → IsTraced sys
      → run.id ≡ id
      → save_run run none sys.store ≡ ok t
      → Writes id s t
  save_again sys run t h same e = Writes.next h.writes (Write.saves_run run same e)

  log_again :
      (sys : Sys outside redis) (i : ℕ) (a : Action) (st : StepStatus) (result : Option Value)
      (error : Option String) (t : Store redis)
      → IsTraced sys
      → log_run_step sys.run.id i a st result error sys.store ≡ ok t
      → Writes id s t
  log_again sys i a st result error t h e =
      Writes.next h.writes (Write.logs_step i a st result error (rw (sym h.same) e))

  advance-IsTraced : (sys : Sys outside redis) → IsTraced sys → IsTraced (advance sys).1
  unfolding advance
  advance-IsTraced sys h =
      let moved = record sys.run { step = sys.run.step + 1 } in
      elim (Result-cases (save_run moved none sys.store)) [
        | inr (m, e) ↦ rw (e, advance) (record { same = h.same; writes = h.writes })
        | inl (t, e) ↦
            rw (e, advance) (record { same = h.same; writes = save_again sys moved t h h.same e })
      ]

  settle-IsTraced :
      (a : Action) (r : StepResult) (sys : Sys outside redis)
      → IsTraced sys
      → IsTraced (settle a r sys).1
  unfolding settle
  settle-IsTraced a r sys h = elim (Option-cases r.wait_until) [
    | inr (at, f) ↦
        let parked = record sys.run { status = waiting; resume_at = some at } in
        elim (Result-cases (save_run parked none sys.store)) [
          | inr (m, e) ↦ rw (f, settle) (rw e (record { same = h.same; writes = h.writes }))
          | inl (t, e) ↦
              rw (f, settle)
                (rw e (record { same = h.same; writes = save_again sys parked t h h.same e }))
        ]
    | inl f ↦
        let stored : Sys outside redis = record sys {
          run = record sys.run { context = store_value r sys.run.context };
        } in
        elim (Result-cases (
          log_run_step sys.run.id sys.run.step a StepStatus.success (some r.value) none
            sys.store)) [
              | inr (m, e) ↦ rw (f, settle) (rw e (record { same = h.same; writes = h.writes }))
              | inl (t, e) ↦
                  rw (f, settle)
                    (rw e (
                      advance-IsTraced (record stored { store = t })
                        (record {
                          same = h.same;
                          writes =
                              log_again sys sys.run.step a StepStatus.success (some r.value) none t
                                h e;
                        })))
            ]
  ]

  perform-IsTraced :
      (a : Action) (sys : Sys outside redis) → IsTraced sys → IsTraced (perform a sys).1
  unfolding perform
  perform-IsTraced a sys h =
      let (result, w) = execute_action outside a sys.run sys.world in
      elim (Result-cases result) [
        | inr (m, e) ↦ rw (e, perform) (record { same = h.same; writes = h.writes })
        | inl (r, e) ↦
            rw (e, perform)
              (settle-IsTraced a r (record sys { world = w })
                (record { same = h.same; writes = h.writes }))
      ]

  perform_all-IsTraced :
      (actions : List Action) (sys : Sys outside redis)
      → IsTraced sys
      → IsTraced (perform_all actions sys).1
  unfolding perform_all
  perform_all-IsTraced [] sys h = h
  perform_all-IsTraced (a ∷ actions) sys h =
      let (turn, sys') = perform a sys in
      elim (Turn-cases turn) [
        | inl e ↦ rw (e, perform_all) (perform_all-IsTraced actions sys' (perform-IsTraced a sys h))
        | inr (how, e) ↦ rw (e, perform_all) (perform-IsTraced a sys h)
      ]

  save_last-IsTraced : (sys : Sys outside redis) → IsTraced sys → IsTraced (save_last sys).sys
  unfolding save_last
  save_last-IsTraced sys h = elim (Result-cases (save_run sys.run none sys.store)) [
    | inr (m, e) ↦ rw (e, save_last) h
    | inl (t, e) ↦
        rw (e, save_last) (record { same = h.same; writes = save_again sys sys.run t h h.same e })
  ]

  fail-IsTraced :
      (actions : List Action) (m : String) (sys : Sys outside redis)
      → IsTraced sys
      → IsTraced (fail actions m sys).sys
  unfolding fail
  fail-IsTraced actions m sys h =
      let (time, w) = outside.now sys.world in
      let broken = record sys.run { status = failed; error = some m; completed_at = some time } in
      elim (Option-cases (get_elem? actions sys.run.step)) [
        | inl e ↦ rw (e, fail) (record { same = h.same; writes = h.writes })
        | inr (a, e) ↦
            elim (Result-cases
              (log_run_step sys.run.id sys.run.step a StepStatus.failed none (some m) sys.store)) [
                | inr (n, f) ↦ rw (e, fail) (rw f (record { same = h.same; writes = h.writes }))
                | inl (t, f) ↦
                    rw (e, fail)
                      (rw f (
                        save_last-IsTraced (record { run = broken; store = t; world = w })
                          (record {
                            same = h.same;
                            writes =
                                log_again sys sys.run.step a StepStatus.failed none (some m) t h f;
                          })))
              ]
      ]

  conclude-IsTraced :
      (actions : List Action) (how : LoopEnd) (sys : Sys outside redis)
      → IsTraced sys
      → IsTraced (conclude actions how sys).sys
  unfolding conclude
  conclude-IsTraced actions returned sys h = h
  conclude-IsTraced actions completed sys h =
      save_last-IsTraced _ (record { same = h.same; writes = h.writes })
  conclude-IsTraced actions (threw m) sys h = fail-IsTraced actions m sys h

execute_plainly-IsTraced :
    {outside : Outside} {redis : Redis} (sys : Sys outside redis)
    → IsTraced sys.run.id sys.store (execute_plainly sys).sys
unfolding execute_plainly
execute_plainly-IsTraced {outside} sys =
    let id = sys.run.id in
    let s = sys.store in
    elim (Option-cases (get_unit sys.run.unit_id sys.store)) [
      | inl e ↦
          rw (e, execute_plainly)
            (save_last-IsTraced id s _ (record { same = refl; writes = Writes.here }))
      | inr (unit, e) ↦
          let started = record sys.run { status = running } in
          elim (Result-cases (save_run started none sys.store)) [
            | inr (m, f) ↦
                rw (e, execute_plainly) (rw f (record { same = refl; writes = Writes.here }))
            | inl (t, f) ↦
                let begun : Sys outside _ = record {
                  run = started;
                  store = t;
                  world = sys.world;
                } in
                let left = drop sys.run.step unit.actions in
                rw (e, execute_plainly)
                  (rw f (
                    conclude-IsTraced id s unit.actions (perform_all left begun).0
                      (perform_all left begun).1
                      (perform_all-IsTraced id s left begun (record {
                        same = refl;
                        writes = Writes.next Writes.here (Write.saves_run started refl f);
                      }))))
          ]
    ]

-- Whatever the outside answers, and whether it throws or not, `execute` writes to the store only by
-- saving its own run, without an event payload, and by logging that run's steps.
pub execute-Writes :
    {outside : Outside} {redis : Redis} (sys : Sys outside redis) {x : Executed outside redis}
    → execute sys ≡ some x
    → (x.sys.run.id ≡ sys.run.id) × Writes sys.run.id sys.store x.sys.store
execute-Writes sys {x} ran =
    let same = execute_plainly_of sys ran in
    let traced = execute_plainly-IsTraced sys in
    subst (λ y. (y.sys.run.id ≡ sys.run.id) × Writes sys.run.id sys.store y.sys.store) same
      (traced.same, traced.writes)
