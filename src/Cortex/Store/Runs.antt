-- ===== src/Cortex/Store/Runs.antt =====
-- cortex/store.ts: the methods on runs and their steps.
use app_intent_system_orches.Base.{
  ℕ, String, Bool, Option, none, some, List, [], ◌∷◌, ◌++◌, any, keep, map, includes, string_eq,
  is_empty, Result, ok, err, if◌then◌else◌,
}
use app_intent_system_orches.Js.{Value, truthy}
use app_intent_system_orches.Cortex.Types.{Run, Action, is_waiting, Automation}
use app_intent_system_orches.Cortex.Redis.{Redis}
use app_intent_system_orches.Cortex.Store.Tables.{
  RunRow, StepRow, StepStatus, Store, unit_is, row_is, step_is,
}
use app_intent_system_orches.Cortex.Store.Units.{has_run}

-- The messages of the database for an insertion whose reference does not exist.
abbrev pub unknown_unit : String
unknown_unit = "insert or update on table \"runs\" violates foreign key constraint"

abbrev pub unknown_run : String
unknown_run = "insert or update on table \"run_steps\" violates foreign key constraint"

-- x || null for a text
abbrev pub or_null : Option String → Option String
or_null none = none
or_null (some s) = if is_empty s then none else some s

-- The columns of a run.
abbrev pub columns : Run → Run
columns run = record run { error = or_null run.error }

-- ON CONFLICT (id) DO UPDATE: the unit, event, user, start and original payload stay.
abbrev pub merge_run : Run → RunRow → RunRow
merge_run new old = record old {
  run = record old.run {
    status = new.status;
    step = new.step;
    context = new.context;
    completed_at = new.completed_at;
    resume_at = new.resume_at;
    error = or_null new.error;
  };
}

abbrev pub update_run : Run → List RunRow → List RunRow
update_run run [] = []
update_run run (row ∷ rows) =
    if row_is run.id row then merge_run run row ∷ rows else row ∷ update_run run rows

-- eventPayload ? JSON.stringify(eventPayload) : null
abbrev pub payload_column : Option Value → Option Value
payload_column none = none
payload_column (some v) = if truthy v then some v else none

abbrev pub has_unit : String → List Automation → Bool
has_unit id units = any (unit_is id) units

abbrev pub find_row : String → List RunRow → Option RunRow
find_row id [] = none
find_row id (row ∷ rows) = if row_is id row then some row else find_row id rows

abbrev pub waiting_key : String
waiting_key = "runs:waiting"

abbrev pub upsert_step : StepRow → List StepRow → List StepRow
upsert_step new [] = new ∷ []
upsert_step new (old ∷ rows) =
    if step_is new.run_id new.step_index old
    then record old { status = new.status; result = new.result; error = new.error } ∷ rows
    else old ∷ upsert_step new rows

-- The sorted set of waiting runs after a run was saved.
abbrev pub note_waiting : (redis : Redis) → Run → redis.Data → redis.Data
note_waiting redis run cache =
    let forget : redis.Data = redis.zrem cache waiting_key run.id in
    if is_waiting run.status
    then elim run.resume_at [ none ↦ forget | some at ↦ redis.zadd cache waiting_key at run.id ]
    else forget

module _ {redis : Redis} where
  unfoldable pub save_run : Run → Option Value → Store redis → Result (Store redis)
  save_run run payload s =
      if has_run run.id s.runs
      then ok (record s { runs = update_run run s.runs; cache = note_waiting redis run s.cache })
      else if has_unit run.unit_id s.units
      then ok (record s {
        runs =
            s.runs
            ++ record { run = columns run; original_event_payload = payload_column payload } ∷ [];
        cache = note_waiting redis run s.cache;
      })
      else err unknown_unit

  unfoldable pub get_run : String → Store redis → Option Run
  get_run id s = elim (find_row id s.runs) [ none ↦ none | some row ↦ some row.run ]

  -- SELECT … WHERE id = ANY(…), which leaves the order open: the rows in the order of their insertion.
  unfoldable pub get_waiting_runs : ℕ → Store redis → List Run
  get_waiting_runs before s =
      let ids : List String = redis.zrange_by_score s.cache waiting_key before in
      map (λ row. row.run) (keep (λ row. includes ids row.run.id) s.runs)

  unfoldable pub get_run_for_rerun : String → Store redis → Option (Run × Option Value)
  get_run_for_rerun id s = elim (find_row id s.runs) [
    | none ↦ none
    | some row ↦ some (row.run, row.original_event_payload)
  ]

  unfoldable pub log_run_step :
      String
      → ℕ
      → Action
      → StepStatus
      → Option Value
      → Option String
      → Store redis
      → Result (Store redis)
  log_run_step run_id index action status result error s =
      if has_run run_id s.runs
      then ok (record s {
        steps =
            upsert_step
              (record {
                run_id = run_id;
                step_index = index;
                action = action;
                status = status;
                result = payload_column result;
                error = or_null error;
              })
              s.steps;
      })
      else err unknown_run
