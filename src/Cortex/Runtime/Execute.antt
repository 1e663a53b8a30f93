-- ===== src/Cortex/Runtime/Execute.antt =====
-- cortex/runtime.ts: execute. A run is one object that `execute`
-- changes while it saves copies of it, so it is part of the state; what was saved and what the
-- outside was asked stay when a call throws.
use app_intent_system_orches.Base.{
  ℕ, zero, suc, ◌+◌, String, Bool, true, false, Option, none, some, List, length, get_elem?, ltb,
  is_empty, ok, err, if◌then◌else◌,
}
use app_intent_system_orches.Js.{Value, undefined, Fields, set_field}
use app_intent_system_orches.Cortex.Types.{Action, Run, running, waiting, success, failed}
use app_intent_system_orches.Cortex.Redis.{Redis}
use app_intent_system_orches.Cortex.World.{Outside}
use app_intent_system_orches.Cortex.Store.Tables.{Store, StepStatus}
use app_intent_system_orches.Cortex.Store.Units.{get_unit}
use app_intent_system_orches.Cortex.Store.Runs.{save_run, log_run_step}
use app_intent_system_orches.Cortex.Runtime.Steps.{StepResult, execute_action}

pub record Sys (outside : Outside) (redis : Redis) : Type 0 where
  pub run : Run
  pub store : Store redis
  pub world : outside.World

-- How the `while` loop is left: by the return after a wait, by its test, or by an exception.
pub data LoopEnd : Type 0 where
  returned completed : LoopEnd
  threw : (message : String) → LoopEnd

-- One round of the loop: go on, or leave.
pub data Turn : Type 0 where
  again : Turn
  leave : LoopEnd → Turn

abbrev pub is_undefined : Value → Bool
is_undefined undefined = true
is_undefined _ = false

-- if (result.store_as && result.value !== undefined) run.context[result.store_as] = result.value
abbrev pub store_value : StepResult → Fields → Fields
store_value r context = elim r.store_as [
  | none ↦ context
  | some name ↦
      if is_empty name
      then context
      else if is_undefined r.value
      then context
      else set_field name r.value context
]

-- What `execute` leaves behind, and the message if it throws.
pub record Executed (outside : Outside) (redis : Redis) : Type 0 where
  pub sys : Sys outside redis
  pub thrown : Option String

module _ {outside : Outside} {redis : Redis} where
  -- A method of the store that may throw, run for its effect.
  abbrev pub put : Sys outside redis → Store redis → Sys outside redis
  put sys s = record sys { store = s }

  -- run.step++ and the save at the end of a round.
  unfoldable pub advance : Sys outside redis → Turn × Sys outside redis
  advance sys =
      let sys' = record sys { run = record sys.run { step = sys.run.step + 1 } } in
      elim (save_run sys'.run none sys'.store) [
        | err m ↦ (leave (threw m), sys')
        | ok s ↦ (again, put sys' s)
      ]

  -- The round after the action returned.
  unfoldable pub settle : Action → StepResult → Sys outside redis → Turn × Sys outside redis
  settle action r sys = elim r.wait_until [
    | some at ↦
        let sys' = record sys { run = record sys.run { status = waiting; resume_at = some at } } in
        elim (save_run sys'.run none sys'.store) [
          | err m ↦ (leave (threw m), sys')
          | ok s ↦ (leave returned, put sys' s)
        ]
    | none ↦
        let sys' = record sys {
          run = record sys.run { context = store_value r sys.run.context };
        } in
        elim (log_run_step sys'.run.id sys'.run.step action StepStatus.success (some r.value) none
          sys'.store) [ err m ↦ (leave (threw m), sys') | ok s ↦ advance (put sys' s) ]
  ]

  unfoldable pub perform : Action → Sys outside redis → Turn × Sys outside redis
  perform action sys =
      let (result, w) = execute_action outside action sys.run sys.world in
      let sys' : Sys outside redis = record sys { world = w } in
      elim result [ err m ↦ (leave (threw m), sys') | ok r ↦ settle action r sys' ]

  -- The `while` loop on fuel.
  unfoldable pub loop : ℕ → List Action → Sys outside redis → Option (LoopEnd × Sys outside redis)
  loop zero actions sys = none
  loop (suc fuel) actions sys = elim (ltb sys.run.step (length actions)) [
    | false ↦ some (completed, sys)
    | true ↦ elim (get_elem? actions sys.run.step) [
      | none ↦ some (completed, sys)
      | some action ↦
          let (turn, sys') = perform action sys in
          elim turn [ again ↦ loop fuel actions sys' | leave how ↦ some (how, sys') ]
    ]
  ]

  -- await this.store.saveRun(run), the last statement
  unfoldable pub save_last : Sys outside redis → Executed outside redis
  save_last sys = elim (save_run sys.run none sys.store) [
    | err m ↦ record { sys = sys; thrown = some m }
    | ok s ↦ record { sys = put sys s; thrown = none }
  ]

  -- The handler of the exception, up to the end of `execute`.
  unfoldable pub fail : List Action → String → Sys outside redis → Executed outside redis
  fail actions message sys =
      let (time, w) = outside.now sys.world in
      let sys' : Sys outside redis = record sys {
        run = record sys.run { status = failed; error = some message; completed_at = some time };
        world = w;
      } in
      elim (get_elem? actions sys'.run.step) [
        | none ↦ record { sys = sys'; thrown = some "Cannot read properties of undefined" }
        | some action ↦
            elim (log_run_step sys'.run.id sys'.run.step action StepStatus.failed none
              (some message) sys'.store) [
                | err m ↦ record { sys = sys'; thrown = some m }
                | ok s ↦ save_last (put sys' s)
              ]
      ]

  unfoldable pub conclude : List Action → LoopEnd → Sys outside redis → Executed outside redis
  conclude actions returned sys = record { sys = sys; thrown = none }
  conclude actions completed sys =
      let (time, w) = outside.now sys.world in
      save_last (record sys {
        run = record sys.run { status = success; completed_at = some time };
        world = w;
      })
  conclude actions (threw message) sys = fail actions message sys

  abbrev conclude_all :
      List Action → Option (LoopEnd × Sys outside redis) → Option (Executed outside redis)
  conclude_all actions none = none
  conclude_all actions (some (how, sys)) = some (conclude actions how sys)

  -- `none` means that the loop ran out of fuel.
  unfoldable pub execute : Sys outside redis → Option (Executed outside redis)
  execute sys = elim (get_unit sys.run.unit_id sys.store) [
    | none ↦ some (
        save_last
          (record sys { run = record sys.run { status = failed; error = some "Unit not found" } }))
    | some unit ↦
        let sys' = record sys { run = record sys.run { status = running } } in
        elim (save_run sys'.run none sys'.store) [
          | err m ↦ some (record { sys = sys'; thrown = some m })
          | ok s ↦
              conclude_all unit.actions (loop (length unit.actions + 1) unit.actions (put sys' s))
        ]
  ]
