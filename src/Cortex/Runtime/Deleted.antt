-- ===== src/Cortex/Runtime/Deleted.antt =====
-- What cortex/runtime.ts `execute` does with a run whose unit was deleted.
use app_intent_system_orches.Base.{
  ◌≡◌, refl, ap, subst, ◌∙◌, inl, inr, String, false, not, keep, Option, none, some, List, [], ◌∷◌,
  arith, Bool-cases, ◌==◌, string_eq, eq_iff, eq_refl,
}
use app_intent_system_orches.Cortex.Types.{Automation, Run}
use app_intent_system_orches.Cortex.Redis.{Redis}
use app_intent_system_orches.Cortex.World.{Outside}
use app_intent_system_orches.Cortex.Store.Tables.{RunRow, Store, unit_is, row_is}
use app_intent_system_orches.Cortex.Store.Units.{get_unit, delete_unit, find_unit, has_run}
use app_intent_system_orches.Cortex.Store.Runs.{save_run, find_row, has_unit, unknown_unit}
use app_intent_system_orches.Cortex.Store.Keys.{UniqueRuns}
use app_intent_system_orches.Cortex.Store.Integrity.{IsConsistent}
use app_intent_system_orches.Cortex.Runtime.Execute.{Sys, Executed, execute, save_last}
use app_intent_system_orches.Cortex.Runtime.Spec.{execute_plainly, execute_plainly_of}

unit_is_gone :
    (id : String) (us : List Automation)
    → (find_unit id (keep (λ u. not (unit_is id u)) us) ≡ none)
      × (has_unit id (keep (λ u. not (unit_is id u)) us) ≡ false)
unit_is_gone id [] = (refl, refl)
unit_is_gone id (u ∷ us) = ground (arith, unit_is_gone id us)

abbrev others : String → List RunRow → List RunRow
others unit_id rows = keep (λ row. not (row.run.unit_id == unit_id)) rows

still_missing :
    (id unit_id : String) (rows : List RunRow)
    → has_run id rows ≡ false
    → has_run id (others unit_id rows) ≡ false
still_missing id unit_id [] h = refl
still_missing id unit_id (row ∷ rows) h = ground (arith, still_missing id unit_id rows)

abbrev unit_of : String → Option RunRow → String
unit_of d none = d
unit_of d (some r) = r.run.unit_id

of_some :
    (unit_id : String) (r row : RunRow)
    → some r ≡ some row
    → row.run.unit_id ≡ unit_id
    → r.run.unit_id ≡ unit_id
of_some unit_id r row e h = ap (unit_of unit_id) e ∙ h

run_is_gone :
    (id unit_id : String) (rows : List RunRow) {row : RunRow}
    → UniqueRuns rows
    → find_row id rows ≡ some row
    → row.run.unit_id ≡ unit_id
    → has_run id (others unit_id rows) ≡ false
run_is_gone id unit_id [] unique found same = absurd (ground arith)
run_is_gone id unit_id (r ∷ rows) {row} unique found same = elim (Bool-cases (row_is id r)) [
  | inl e ↦
      let dropped : r.run.unit_id ≡ unit_id = of_some unit_id r row (rw e at found) same in
      rw (dropped, eq_refl unit_id)
        (still_missing id unit_id rows
          (subst (λ k. has_run k rows ≡ false) ((eq_iff r.run.id id).0 e) unique.0))
  | inr e ↦ ground (arith, e, run_is_gone id unit_id rows unique.1 (rw e at found) same)
]

module _ {redis : Redis} where
  get_unit-delete_unit :
      (id : String) (s : Store redis)
      → (get_unit id (delete_unit id s) ≡ none) × (has_unit id (delete_unit id s).units ≡ false)
  unfolding get_unit delete_unit
  get_unit-delete_unit id s = unit_is_gone id s.units

  has_run-delete_unit :
      (id unit_id : String) (s : Store redis) {row : RunRow}
      → IsConsistent s
      → find_row id s.runs ≡ some row
      → row.run.unit_id ≡ unit_id
      → has_run id (delete_unit unit_id s).runs ≡ false
  unfolding delete_unit
  has_run-delete_unit id unit_id s c found same =
      run_is_gone id unit_id s.runs c.unique_runs found same

module _ {outside : Outside} {redis : Redis} where
  throws_plainly :
      (sys : Sys outside redis)
      → get_unit sys.run.unit_id sys.store ≡ none
      → has_run sys.run.id sys.store.runs ≡ false
      → has_unit sys.run.unit_id sys.store.units ≡ false
      → ((execute_plainly sys).thrown ≡ some unknown_unit)
        × ((execute_plainly sys).sys.store ≡ sys.store)
  unfolding execute_plainly save_last save_run
  throws_plainly sys gone no_run no_unit =
      rw (gone, execute_plainly) (rw (no_run, save_last, save_run) (rw no_unit (refl, refl)))

-- A run that is stored with the unit it names, and whose unit is then deleted, is not marked as failed
-- when it is executed: `execute` throws the error of the database and stores nothing.
pub execute-delete_unit :
    {outside : Outside} {redis : Redis} (run : Run) (s : Store redis) (w : outside.World)
    {row : RunRow} {x : Executed outside redis}
    → IsConsistent s
    → find_row run.id s.runs ≡ some row
    → row.run.unit_id ≡ run.unit_id
    → execute (record { run = run; store = delete_unit run.unit_id s; world = w }) ≡ some x
    → (x.thrown ≡ some unknown_unit) × (x.sys.store ≡ delete_unit run.unit_id s)
execute-delete_unit {outside} {redis} run s w consistent found same executed =
    let sys : Sys outside redis = record {
      run = run;
      store = delete_unit run.unit_id s;
      world = w;
    } in
    let (gone, no_unit) = get_unit-delete_unit run.unit_id s in
    let no_run = has_run-delete_unit run.id run.unit_id s consistent found same in
    subst (λ y. (y.thrown ≡ some unknown_unit) × (y.sys.store ≡ delete_unit run.unit_id s))
      (execute_plainly_of sys executed) (throws_plainly sys gone no_run no_unit)
