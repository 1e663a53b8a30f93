-- ===== src/Cortex/Store/Integrity.antt =====
-- The keys and references of the tables of cortex/store.ts.
use app_intent_system_orches.Base.{
  ℕ, String, ◌≡◌, inl, inr, true, Option, string_eq, ok, OnOk, of_OnOk, All, All-mono,
  All-keep_test, All-append, arith, Bool-cases,
}
use app_intent_system_orches.Js.{Value}
use app_intent_system_orches.Cortex.Types.{Event, Automation, Run, UnitStatus, Action}
use app_intent_system_orches.Cortex.Redis.{Redis}
use app_intent_system_orches.Cortex.Store.Tables.{StepStatus, Store}
use app_intent_system_orches.Cortex.Store.Units.{
  save_unit, update_unit_status, delete_unit, has_run,
}
use app_intent_system_orches.Cortex.Store.Events.{write_event}
use app_intent_system_orches.Cortex.Store.Runs.{has_unit, save_run, log_run_step}
use app_intent_system_orches.Cortex.Store.Keys.{
  UniqueUnits, UniqueRuns, has_unit-upsert, upsert_unit-Unique, has_unit-update_status,
  update_status-Unique, has_run-update_run, update_run-Unique, update_run-refer, has_run-snoc,
  UniqueRuns-snoc, UniqueUnits-keep, UniqueRuns-keep, has_unit-delete, All-test, upsert_step-refer,
}

pub record IsConsistent {redis : Redis} (s : Store redis) : Type 0 where
  pub unique_units : UniqueUnits s.units
  pub unique_runs : UniqueRuns s.runs
  pub runs_refer : All (λ row. has_unit row.run.unit_id s.units ≡ true) s.runs
  pub steps_refer : All (λ st. has_run st.run_id s.runs ≡ true) s.steps

module _ {redis : Redis} where
  pub save_unit-IsConsistent :
      (now : ℕ) (u : Automation) (s : Store redis)
      → IsConsistent s
      → IsConsistent (save_unit now u s)
  unfolding save_unit
  save_unit-IsConsistent now u s h = record {
    unique_units = upsert_unit-Unique now u s.units h.unique_units;
    unique_runs = h.unique_runs;
    runs_refer =
        All-mono _ _ s.runs (λ row e. rw (has_unit-upsert now u s.units row.run.unit_id) (rw e))
          h.runs_refer;
    steps_refer = h.steps_refer;
  }

  pub update_unit_status-IsConsistent :
      (now : ℕ) (id : String) (st : UnitStatus) (s : Store redis)
      → IsConsistent s
      → IsConsistent (update_unit_status now id st s)
  unfolding update_unit_status
  update_unit_status-IsConsistent now id st s h = record {
    unique_units = update_status-Unique now id st s.units h.unique_units;
    unique_runs = h.unique_runs;
    runs_refer =
        All-mono _ _ s.runs
          (λ row e. rw (has_unit-update_status now id st s.units row.run.unit_id) e) h.runs_refer;
    steps_refer = h.steps_refer;
  }

  pub delete_unit-IsConsistent :
      (id : String) (s : Store redis) → IsConsistent s → IsConsistent (delete_unit id s)
  unfolding delete_unit
  delete_unit-IsConsistent id s h = record {
    unique_units = UniqueUnits-keep _ s.units h.unique_units;
    unique_runs = UniqueRuns-keep _ s.runs h.unique_runs;
    runs_refer =
        All-keep_test _ _ _ s.runs (λ row e ne. has_unit-delete id s.units row.run.unit_id e ne)
          h.runs_refer;
    steps_refer = All-test _ s.steps;
  }

  save_run-OnOk :
      (run : Run) (payload : Option Value) (s : Store redis)
      → IsConsistent s
      → OnOk IsConsistent (save_run run payload s)
  unfolding save_run
  save_run-OnOk run payload s h = elim (Bool-cases (has_run run.id s.runs)) [
    | inl old ↦ rw old (record {
      unique_units = h.unique_units;
      unique_runs = update_run-Unique run s.runs h.unique_runs;
      runs_refer = update_run-refer s.units run s.runs h.runs_refer;
      steps_refer =
          All-mono _ _ s.steps (λ st e. rw (has_run-update_run run s.runs st.run_id) e)
            h.steps_refer;
    })
    | inr new ↦ rw new (elim (Bool-cases (has_unit run.unit_id s.units)) [
      | inl known ↦ rw known (record {
        unique_units = h.unique_units;
        unique_runs = UniqueRuns-snoc _ s.runs new h.unique_runs;
        runs_refer = All-append _ s.runs _ h.runs_refer (known, tt);
        steps_refer =
            All-mono _ _ s.steps (λ st e. rw (has_run-snoc _ s.runs st.run_id) (rw e))
              h.steps_refer;
      })
      | inr dangling ↦ rw dangling tt
    ])
  ]

  log_run_step-OnOk :
      (id : String) (i : ℕ) (a : Action) (st : StepStatus) (result : Option Value)
      (error : Option String) (s : Store redis)
      → IsConsistent s
      → OnOk IsConsistent (log_run_step id i a st result error s)
  unfolding log_run_step
  log_run_step-OnOk id i a st result error s h = elim (Bool-cases (has_run id s.runs)) [
    | inl known ↦ rw known (record {
      unique_units = h.unique_units;
      unique_runs = h.unique_runs;
      runs_refer = h.runs_refer;
      steps_refer = upsert_step-refer s.runs _ s.steps known h.steps_refer;
    })
    | inr dangling ↦ rw dangling tt
  ]

  pub write_event_tables :
      (encode : Event → String) (event : Event) (s : Store redis)
      → ((write_event encode event s).0.units ≡ s.units)
        × ((write_event encode event s).0.runs ≡ s.runs)
        × ((write_event encode event s).0.steps ≡ s.steps)
  unfolding write_event
  write_event_tables encode event s = ground arith

  write_event-IsConsistent :
      (encode : Event → String) (event : Event) (s : Store redis)
      → IsConsistent s
      → IsConsistent (write_event encode event s).0
  write_event-IsConsistent encode event s h =
      let (units, runs, steps) = write_event_tables encode event s in
      record {
        unique_units = rw units h.unique_units;
        unique_runs = rw runs h.unique_runs;
        runs_refer = rw (runs, units) h.runs_refer;
        steps_refer = rw (steps, runs) h.steps_refer;
      }

  -- One call of a method that writes, where it succeeds.
  pub data Change (encode : Event → String) : Store redis → Store redis → Type 0 where
    saves_unit : {s : Store redis} (now : ℕ) (u : Automation) → Change encode s (save_unit now u s)
    updates_status :
        {s : Store redis} (now : ℕ) (id : String) (st : UnitStatus)
        → Change encode s (update_unit_status now id st s)
    deletes_unit : {s : Store redis} (id : String) → Change encode s (delete_unit id s)
    saves_run :
        {s t : Store redis} (run : Run) (payload : Option Value)
        → save_run run payload s ≡ ok t
        → Change encode s t
    logs_step :
        {s t : Store redis} (id : String) (i : ℕ) (a : Action) (st : StepStatus)
        (result : Option Value) (error : Option String)
        → log_run_step id i a st result error s ≡ ok t
        → Change encode s t
    writes_event : {s : Store redis} (e : Event) → Change encode s (write_event encode e s).0

  pub data Changes (encode : Event → String) (s : Store redis) : Store redis → Type 0 where
    here : Changes encode s s
    next : {t u : Store redis} → Changes encode s t → Change encode t u → Changes encode s u

  Change-IsConsistent :
      {encode : Event → String} {s t : Store redis}
      → Change encode s t
      → IsConsistent s
      → IsConsistent t
  Change-IsConsistent (saves_unit {s = s} now u) h = save_unit-IsConsistent now u s h
  Change-IsConsistent (updates_status {s = s} now id st) h =
      update_unit_status-IsConsistent now id st s h
  Change-IsConsistent (deletes_unit {s = s} id) h = delete_unit-IsConsistent id s h
  Change-IsConsistent (saves_run {s = s} run payload e) h =
      of_OnOk IsConsistent _ (save_run-OnOk run payload s h) e
  Change-IsConsistent (logs_step {s = s} id i a st result error e) h =
      of_OnOk IsConsistent _ (log_run_step-OnOk id i a st result error s h) e
  Change-IsConsistent {encode} (writes_event {s = s} e) h = write_event-IsConsistent encode e s h

  -- Whatever methods of the store are called in whatever order, ids of units and of runs stay unique,
  -- every run's unit exists, and every logged step's run exists.
  pub Changes-IsConsistent :
      {encode : Event → String} {s t : Store redis}
      → IsConsistent s
      → Changes encode s t
      → IsConsistent t
  Changes-IsConsistent h here = h
  Changes-IsConsistent h (next c d) = Change-IsConsistent d (Changes-IsConsistent h c)
