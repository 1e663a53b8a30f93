-- ===== src/Cortex/Runtime/Spec.antt =====
-- The loop of cortex/runtime.ts `execute` against a recursion on the actions that are left.
use app_intent_system_orches.Base.{
  ℕ, zero, suc, ◌+◌, ◌-◌, ◌≤◌, ◌<◌, ◌≡◌, refl, ◌∙◌, ◌⊎◌, inl, inr, none, some, List, [], ◌∷◌,
  length, drop, get_elem?, ltb, ok, err, arith, Bool-cases, Option-cases, Result-cases, ltb→le,
  ltb→lt,
}
use native.Mathlib.Numerals.{add-one}
use app_intent_system_orches.Cortex.Types.{Action, running, failed}
use app_intent_system_orches.Cortex.Redis.{Redis}
use app_intent_system_orches.Cortex.World.{Outside}
use app_intent_system_orches.Cortex.Store.Units.{get_unit}
use app_intent_system_orches.Cortex.Store.Runs.{save_run}
use app_intent_system_orches.Cortex.Runtime.Steps.{StepResult, execute_action}
use app_intent_system_orches.Cortex.Runtime.Execute.{
  Sys, LoopEnd, completed, Turn, again, leave, advance, settle, perform, loop, put, Executed,
  save_last, conclude, execute,
}

head-drop :
    (n : ℕ) (actions : List Action)
    → n < length actions
    → (a : Action) × (get_elem? actions n ≡ some a) × (drop n actions ≡ a ∷ drop (suc n) actions)
head-drop n [] h = absurd (omega arith)
head-drop zero (a ∷ rest) h = (a, refl, refl)
head-drop (suc n) (a ∷ rest) h = head-drop n rest (omega arith)

drop_all : (n : ℕ) (actions : List Action) → length actions ≤ n → drop n actions ≡ []
drop_all zero [] h = refl
drop_all zero (a ∷ rest) h = absurd (omega arith)
drop_all (suc n) [] h = refl
drop_all (suc n) (a ∷ rest) h = drop_all n rest (omega arith)

pub Turn-cases : (t : Turn) → (t ≡ again) ⊎ ((how : LoopEnd) × (t ≡ leave how))
Turn-cases again = inl refl
Turn-cases (leave how) = inr (how, refl)

module _ {outside : Outside} {redis : Redis} where
  -- The actions that are left, performed one after the other.
  unfoldable pub perform_all : List Action → Sys outside redis → LoopEnd × Sys outside redis
  perform_all [] sys = (completed, sys)
  perform_all (a ∷ as_left) sys =
      let (turn, sys') = perform a sys in
      elim turn [ again ↦ perform_all as_left sys' | leave how ↦ (how, sys') ]

  -- A round that goes on has moved to the next step.
  advance_moves :
      (sys : Sys outside redis)
      → (advance sys).0 ≡ again
      → (advance sys).1.run.step ≡ sys.run.step + 1
  unfolding advance
  advance_moves sys h = ground arith

  settle_moves :
      (a : Action) (r : StepResult) (sys : Sys outside redis)
      → (settle a r sys).0 ≡ again
      → (settle a r sys).1.run.step ≡ sys.run.step + 1
  unfolding settle advance
  settle_moves a r sys h = ground arith

  pub perform_moves :
      (a : Action) (sys : Sys outside redis)
      → (perform a sys).0 ≡ again
      → (perform a sys).1.run.step ≡ sys.run.step + 1
  unfolding perform
  perform_moves a sys h =
      let (result, w) = execute_action outside a sys.run sys.world in
      elim (Result-cases result) [
        | inl (r, e) ↦ ground (arith, settle_moves a r (record sys { world = w }))
        | inr (m, e) ↦ ground arith
      ]

  -- With fuel for the actions that are left and one test more, the loop ends as performing them does.
  pub loop-perform_all :
      (fuel : ℕ) (actions : List Action) (sys : Sys outside redis)
      → length actions - sys.run.step < fuel
      → loop fuel actions sys ≡ some (perform_all (drop sys.run.step actions) sys)
  unfolding loop perform_all
  loop-perform_all zero actions sys h = absurd (omega arith)
  loop-perform_all (suc fuel) actions sys h =
      elim (Bool-cases (ltb sys.run.step (length actions))) [
        | inr over ↦ rw (over, loop) (rw (drop_all sys.run.step actions (ltb→le _ _ over)) refl)
        | inl more ↦
            let (a, found, left) = head-drop sys.run.step actions (ltb→lt _ _ more) in
            let (turn, sys') = perform a sys in
            rw (more, loop)
              (rw (found, loop)
                (rw left (elim (Turn-cases turn) [
                  | inr (how, e) ↦ rw (e, loop) (rw (e, perform_all) refl)
                  | inl e ↦
                      let moved : sys'.run.step ≡ suc sys.run.step =
                        perform_moves a sys e ∙ add-one _ in
                      rw (e, loop)
                        (rw (e, perform_all)
                          (rw moved at (
                            loop-perform_all fuel actions sys' (
                              rw moved
                                (omega (arith, ltb→lt sys.run.step (length actions) more))))))
                ])))
      ]

  -- `execute` with the actions that are left performed one after the other.
  unfoldable pub execute_plainly : Sys outside redis → Executed outside redis
  execute_plainly sys = elim (get_unit sys.run.unit_id sys.store) [
    | none ↦
        save_last
          (record sys { run = record sys.run { status = failed; error = some "Unit not found" } })
    | some unit ↦
        let sys' : Sys outside redis = record sys { run = record sys.run { status = running } } in
        elim (save_run sys'.run none sys'.store) [
          | err m ↦ record { sys = sys'; thrown = some m }
          | ok s ↦
              let (how, sys'') = perform_all (drop sys.run.step unit.actions) (put sys' s) in
              conclude unit.actions how sys''
        ]
  ]

-- `execute` always ends, whatever the outside answers and the store throws: it performs the actions
-- from the run's step on, each once and in order, up to the first that waits or throws, and then
-- concludes.
pub execute-execute_plainly :
    {outside : Outside} {redis : Redis} (sys : Sys outside redis)
    → execute sys ≡ some (execute_plainly sys)
unfolding execute execute_plainly
execute-execute_plainly {outside} {redis} sys =
    elim (Option-cases (get_unit sys.run.unit_id sys.store)) [
      | inl e ↦ rw (e, execute, execute_plainly) refl
      | inr (unit, e) ↦
          let started = record sys.run { status = running } in
          elim (Result-cases (save_run started none sys.store)) [
            | inr (m, f) ↦ rw (e, execute, execute_plainly) (rw (f, execute) refl)
            | inl (s, f) ↦
                let begun : Sys outside redis = record {
                  run = started;
                  store = s;
                  world = sys.world;
                } in
                let ended =
                  loop-perform_all (length unit.actions + 1) unit.actions begun (omega arith) in
                rw (e, execute, execute_plainly) (rw (f, execute) (rw ended refl))
          ]
    ]

-- What an execution leaves behind is what the plain one does.
pub execute_plainly_of :
    {outside : Outside} {redis : Redis} (sys : Sys outside redis) {x : Executed outside redis}
    → execute sys ≡ some x
    → execute_plainly sys ≡ x
execute_plainly_of sys ran = cc (execute-execute_plainly sys)
