-- ===== src/Tests/Runtime.antt =====
-- The theorems on the runtime and the matcher at concrete inputs.
use app_intent_system_orches.Base.{
  show_nat, ap, sym, subst, ◌≡◌, ◌⊎◌, refl, true, false, none, some, List, [], ◌∷◌, keep, ok,
}
use app_intent_system_orches.Cortex.Types.{Run, waiting}
use app_intent_system_orches.Cortex.Store.Units.{delete_unit, get_unit}
use app_intent_system_orches.Cortex.Store.Runs.{
  unknown_unit, find_row, get_run_for_rerun, save_run, log_run_step,
}
use app_intent_system_orches.Cortex.Store.Events.{write_event}
use app_intent_system_orches.Cortex.Matcher.{match}
use app_intent_system_orches.Cortex.Matcher.Laws.{AreRunsOf, is_started_by, match-AreRunsOf}
use app_intent_system_orches.Cortex.Dispatch.{process_event}
use app_intent_system_orches.Cortex.Dispatch.Laws.{process_event-AreRunsOf}
use app_intent_system_orches.Cortex.Runtime.Execute.{
  Sys, execute, perform, settle, advance, save_last, fail, conclude,
}
use app_intent_system_orches.Cortex.Runtime.Steps.{
  execute_action, call_llm, user_prompt, parse_duration,
}
use app_intent_system_orches.Cortex.Runtime.Spec.{
  perform_all, execute_plainly, execute-execute_plainly,
}
use app_intent_system_orches.Cortex.Runtime.Parked.{IsStored}
use app_intent_system_orches.Cortex.Runtime.Outcome.{Finished, execute-Finished}
use app_intent_system_orches.Cortex.Store.Integrity.{IsConsistent}
use app_intent_system_orches.Cortex.Runtime.Writes.{Writes, execute-Writes}
use app_intent_system_orches.Cortex.Runtime.Frame.{execute_keeps, rerun_once}
use app_intent_system_orches.Cortex.Runtime.Resume.{refused, ran, ran_out, rerun, rerun_of}
use app_intent_system_orches.Cortex.Runtime.Deleted.{execute-delete_unit}
use app_intent_system_orches.Tests.Clients.{logged_redis, clock_outside}
use app_intent_system_orches.Tests.Examples.{
  example_unit, example_store, run_store, example_store-IsConsistent, run_store-IsConsistent,
  example_event, example_run, encode_id,
}

abbrev example_sys : Sys clock_outside logged_redis
example_sys = record { run = example_run; store = example_store; world = 10 }

-- The run waits behind its first action.
parks : (execute_plainly example_sys).sys.run.status ≡ waiting
unfolding execute_plainly perform_all perform settle advance save_last fail conclude execute_action
    call_llm user_prompt parse_duration get_unit save_run log_run_step
parks = refl

parked_quietly : (execute_plainly example_sys).thrown ≡ none
unfolding execute_plainly perform_all perform settle advance save_last fail conclude execute_action
    call_llm user_prompt parse_duration get_unit save_run log_run_step
parked_quietly = refl

execute_example : execute example_sys ≡ some (execute_plainly example_sys)
execute_example = execute-execute_plainly example_sys

has_example : get_unit "u1" example_store ≡ some example_unit
unfolding get_unit
has_example = refl

execute-Finished_example :
    Finished example_unit.actions (execute_plainly example_sys).sys.run
    × IsStored (execute_plainly example_sys).sys.run (execute_plainly example_sys).sys.store
execute-Finished_example =
    execute-Finished example_sys example_unit has_example (execute-execute_plainly example_sys)
      parked_quietly

match_example :
    (created : List Run) × ((match clock_outside example_event example_store 3).result ≡ ok created)
    × AreRunsOf example_event
        (keep (is_started_by clock_outside example_event) (example_unit ∷ []))
        created
    × ((match clock_outside example_event example_store 3).store.units ≡ example_unit ∷ [])
match_example = match-AreRunsOf clock_outside example_event example_store 3 ((tt, tt), tt)

process_event_example :
    (((write_event encode_id example_event example_store).1 ≡ false)
      × ((process_event clock_outside encode_id example_event example_store 3).started ≡ [])
      × ((process_event clock_outside encode_id example_event example_store 3).store
          ≡ example_store))
    ⊎ (((write_event encode_id example_event example_store).1 ≡ true)
        × AreRunsOf example_event
            (keep (is_started_by clock_outside example_event) (example_unit ∷ []))
            (process_event clock_outside encode_id example_event example_store 3).started
        × ((process_event clock_outside encode_id example_event example_store 3).logged ≡ none))
process_event_example =
    process_event-AreRunsOf clock_outside encode_id example_event example_store 3 ((tt, tt), tt)

execute-Writes_example :
    ((execute_plainly example_sys).sys.run.id ≡ "run_1")
    × Writes "run_1" example_store (execute_plainly example_sys).sys.store
execute-Writes_example = execute-Writes example_sys (execute-execute_plainly example_sys)

execute_keeps_example :
    (find_row "run_2" (execute_plainly example_sys).sys.store.runs ≡ none)
    × IsConsistent (execute_plainly example_sys).sys.store
execute_keeps_example =
    execute_keeps example_sys "run_2" (execute-execute_plainly example_sys)
      example_store-IsConsistent refl

-- The run that a rerun at time 10 makes.
abbrev rerun_sys : Sys clock_outside logged_redis
rerun_sys = record {
  run = (rerun_of clock_outside example_run example_event.payload 10).0;
  store = run_store;
  world = (rerun_of clock_outside example_run example_event.payload 10).1;
}

reran : rerun "run_1" run_store 10 ≡ some (ran (execute_plainly rerun_sys))
unfolding rerun get_run_for_rerun
reran = ap ran_out (execute-execute_plainly rerun_sys)

new_id : (execute_plainly rerun_sys).sys.run.id ≡ "run_10"
unfolding rerun_of show_nat
new_id = (execute-Writes rerun_sys (execute-execute_plainly rerun_sys)).0

rerun_once_example :
    rerun {outside = clock_outside}
      (execute_plainly rerun_sys).sys.run.id
      (execute_plainly rerun_sys).sys.store
      99
    ≡ some refused
rerun_once_example =
    rerun_once "run_1" run_store 10 99 reran
      (subst (λ k. find_row k run_store.runs ≡ none) (sym new_id) refl)

abbrev orphan : Sys clock_outside logged_redis
orphan = record { run = example_run; store = delete_unit "u1" run_store; world = 5 }

execute-delete_unit_example :
    ((execute_plainly orphan).thrown ≡ some unknown_unit)
    × ((execute_plainly orphan).sys.store ≡ delete_unit "u1" run_store)
execute-delete_unit_example =
    execute-delete_unit example_run run_store 5 run_store-IsConsistent refl refl
      (execute-execute_plainly orphan)
