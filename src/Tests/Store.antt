-- ===== src/Tests/Store.antt =====
-- The theorems on the store at concrete inputs.
use app_intent_system_orches.Base.{
  ◌≡◌, refl, String, false, none, some, [], ◌∷◌, map, keep, ok, string_eq, arith,
}
use app_intent_system_orches.Cortex.Types.{Event, Run, waiting}
use app_intent_system_orches.Cortex.Store.Tables.{Store}
use app_intent_system_orches.Cortex.Store.Runs.{save_run, get_waiting_runs, find_row, waiting_key}
use app_intent_system_orches.Cortex.Store.Events.{write_event}
use app_intent_system_orches.Cortex.Store.Integrity.{
  IsConsistent, Change, Changes, Changes-IsConsistent,
}
use app_intent_system_orches.Cortex.Store.Waiting.{
  IsIndexed, Changes-IsIndexed, is_due, get_waiting_runs-Changes,
}
use app_intent_system_orches.Cortex.Store.Dedupe.{write_event-Changes}
use app_intent_system_orches.Cortex.Runtime.Resume.{After, resume_waiting_runs}
use app_intent_system_orches.Cortex.Runtime.Resuming.{has_due, resume_waiting_runs_keeps}
use app_intent_system_orches.Tests.Clients.{logged_redis, clock_outside}
use app_intent_system_orches.Tests.Examples.{
  example_store-IsConsistent, example_store, example_event, example_run, encode_id,
}

abbrev waiting_run : Run
waiting_run = record example_run { status = waiting; resume_at = some 50 }

-- The store after the run was saved.
abbrev waiting_store : Store logged_redis
waiting_store = record example_store {
  runs = record { run = waiting_run; original_event_payload = none } ∷ [];
  cache = ([], (waiting_key, "run_1", some 50) ∷ []);
}

saved : save_run waiting_run none example_store ≡ ok waiting_store
unfolding save_run
saved = refl

example-Changes : Changes encode_id example_store waiting_store
example-Changes = Changes.next Changes.here (Change.saves_run waiting_run none saved)

example_store-IsIndexed : IsIndexed example_store
example_store-IsIndexed = record { at = λ id row found. absurd (ground arith) }

Changes-IsConsistent_example : IsConsistent waiting_store
Changes-IsConsistent_example = Changes-IsConsistent example_store-IsConsistent example-Changes

get_waiting_runs-Changes_example :
    get_waiting_runs 60 waiting_store
    ≡ map (λ row. row.run) (keep (λ row. is_due 60 row.run) waiting_store.runs)
get_waiting_runs-Changes_example =
    get_waiting_runs-Changes 60 example_store-IsConsistent example_store-IsIndexed example-Changes

abbrev second_event : Event
second_event = record example_event { id = "e2" }

write_event-Changes_example :
    write_event encode_id second_event (write_event encode_id example_event example_store).0
    ≡ ((write_event encode_id example_event example_store).0, false)
write_event-Changes_example =
    write_event-Changes example_event second_event "mail-1" example_store refl refl Changes.here

waiting_store-IsIndexed : IsIndexed waiting_store
waiting_store-IsIndexed =
    Changes-IsIndexed example_store-IsConsistent example_store-IsIndexed example-Changes

resume_waiting_runs_keeps_example :
    (after : After clock_outside logged_redis) × (resume_waiting_runs waiting_store 60 ≡ some after)
    × IsConsistent after.store
    × IsIndexed after.store
    × ((j : String)
        → has_due (clock_outside.now 60).0 waiting_store.runs j ≡ false
        → find_row j after.store.runs ≡ find_row j waiting_store.runs)
resume_waiting_runs_keeps_example =
    resume_waiting_runs_keeps waiting_store 60
      (Changes-IsConsistent example_store-IsConsistent example-Changes) waiting_store-IsIndexed
